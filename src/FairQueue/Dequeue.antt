-- ===== src/FairQueue/Dequeue.antt =====
-- `Dequeue` of runtime/queue/fair_queue.go.
use mathlib.Core.List.{append-nil}
use native.Mathlib.Nat.{mod-lt}
use ai_workstation_core.Base.{
  String, List, [], ◌∷◌, ◌++◌, some, ℕ, ◌+◌, ◌%◌, ◌<◌, true, false, ◌||◌, ◌≡◌, refl, sym, ap, ap₂,
  ◌∙◌, arith, inl, inr, eq_iff, if◌then◌else◌, ◌==◌, leb, str_eq, length, length-append, take, drop,
  contains, Option-cases,
}
use ai_workstation_core.Base.Assoc.{Assoc, lookup, insert, remove, lookup-insert, lookup-remove}
use ai_workstation_core.FairQueue.{
  Request, SessionEntry, FairQueue, got, served, serve, scan, dequeue,
}
use ai_workstation_core.FairQueue.Turns.{
  waiting, waiting-insert, waiting-remove, waiting_sum, distinct, IsWell, contains-append,
  waiting_sum-append, distinct-middle, split_at, get_elem?-in_range, length-take,
  waiting_sum-changed,
}
use ai_workstation_core.FairQueue.Line.{
  line_at, line, line_at-append, line_at-next, line_at-removed,
}

abbrev before : FairQueue → List String
before q = take q.pos q.order

abbrev after : FairQueue → List String
after q = drop (q.pos + 1) q.order

module _ (now : ℕ) (q : FairQueue) (sid : String) (entry : SessionEntry) (r : Request)
    (w : IsWell q) (here : q.order ≡ before q ++ sid ∷ after q)
    (found : lookup sid q.sessions ≡ some entry) where
  contains_here :
      (k : String)
      → contains q.order k ≡ (contains (before q) k || (str_eq sid k || contains (after q) k))
  contains_here k = ap (λ o. contains o k) here ∙ contains-append (before q) (sid ∷ after q) k

  middle :
      (contains (before q) sid ≡ false)
      × (contains (after q) sid ≡ false)
      × (distinct (before q ++ after q) ≡ true)
  middle = distinct-middle (before q) (after q) sid (ap distinct (sym here) ∙ w.once)

  stands : contains q.order sid ≡ true
  stands = ground (arith, eq_iff sid sid, contains_here sid)

  some_order : 0 < length q.order
  some_order = omega (arith, ap length here, length-append (before q) (sid ∷ after q))

  serve_last-IsWell : entry.requests ≡ r ∷ [] → IsWell (serve now q sid entry r [])
  unfolding serve
  serve_last-IsWell one = record {
    known = λ k. ground (
      arith,
      eq_iff sid k,
      w.known k,
      contains_here k,
      middle,
      contains-append (before q) (after q) k,
      lookup-remove sid k q.sessions,
    );
    nonempty = λ k h. ground (
      arith,
      eq_iff sid k,
      w.nonempty k,
      contains_here k,
      middle,
      contains-append (before q) (after q) k,
      waiting-remove sid k q.sessions,
    );
    once = middle.2;
    in_range = ground arith;
    counted =
        let less = remove sid q.sessions in
        ground (
          arith,
          one,
          w.counted,
          eq_iff sid sid,
          waiting-remove sid sid q.sessions,
          ap (λ o. waiting_sum less o) here,
          waiting_sum-append less (before q) (sid ∷ after q),
          waiting_sum-append less (before q) (after q),
          waiting_sum-changed q.sessions less sid
              (λ k h. ground (arith, h, waiting-remove sid k q.sessions)) q.order w.once stands,
        );
    bounded = omega (arith, w.bounded);
  }

  serve_more-IsWell :
      (s : Request) (rest : List Request)
      → entry.requests ≡ r ∷ s ∷ rest
      → IsWell (serve now q sid entry r (s ∷ rest))
  unfolding serve
  serve_more-IsWell s rest more = record {
    known = λ k. ground (
      arith,
      eq_iff sid k,
      w.known k,
      lookup-insert sid k (served now entry r (s ∷ rest)) q.sessions,
    );
    nonempty = λ k h. ground (
      arith,
      eq_iff sid k,
      w.nonempty k,
      waiting-insert sid k (served now entry r (s ∷ rest)) q.sessions,
    );
    once = w.once;
    in_range = omega (arith, mod-lt (q.pos + 1) some_order);
    counted =
        let fewer = insert sid (served now entry r (s ∷ rest)) q.sessions in
        ground (
          arith,
          more,
          w.counted,
          eq_iff sid sid,
          waiting-insert sid sid (served now entry r (s ∷ rest)) q.sessions,
          waiting_sum-changed q.sessions fewer sid
              (λ k h.
                ground (arith, h, waiting-insert sid k (served now entry r (s ∷ rest)) q.sessions))
              q.order w.once stands,
        );
    bounded = omega (arith, w.bounded);
  }

-- What it means that a request is served and the queue changes: some session is first in line and the
-- request is its first; it leaves that session, which goes to the end of the line if more requests
-- wait in it and leaves the line if not; the other sessions keep their requests and their turns.
pub record Served (q p : FairQueue) (r : Request) : Type 0 where
  pub session : String
  pub rest : List String
  pub line_before : line q ≡ session ∷ rest
  pub line_after :
      line p ≡ rest ++ (if length (waiting p.sessions session) == 0 then [] else session ∷ [])
  pub first : waiting q.sessions session ≡ r ∷ waiting p.sessions session
  pub others : (k : String) → str_eq session k ≡ false → waiting p.sessions k ≡ waiting q.sessions k
  pub total : q.total ≡ p.total + 1
  pub well : IsWell p

module _ (now : ℕ) (q : FairQueue) (sid : String) (entry : SessionEntry) (r : Request)
    (w : IsWell q) (here : q.order ≡ before q ++ sid ∷ after q)
    (found : lookup sid q.sessions ≡ some entry) (place : q.pos < length q.order)
    (positive : 0 < q.total) where
  position : q.pos ≡ length (before q)
  position = sym (length-take q.order q.pos (omega arith))

  line_here : line q ≡ sid ∷ (after q ++ before q)
  line_here = ap₂ line_at position here ∙ line_at-append (before q) (sid ∷ after q)

  serve-Served :
      (rest : List Request) → entry.requests ≡ r ∷ rest → Served q (serve now q sid entry r rest) r
  unfolding serve
  serve-Served [] e = record {
    session = sid;
    rest = after q ++ before q;
    line_before = line_here;
    line_after =
        let none_left : waiting (remove sid q.sessions) sid ≡ [] =
          ground (arith, eq_iff sid sid, waiting-remove sid sid q.sessions) in
        ap
          (λ n.
            line_at (if leb (length (before q ++ after q)) n then 0 else n) (before q ++ after q))
          position
        ∙ line_at-removed (before q) (after q)
        ∙ sym (append-nil (after q ++ before q))
        ∙ ap (λ l. (after q ++ before q) ++ (if length l == 0 then [] else sid ∷ []))
            (sym none_left);
    first = ground (arith, e, eq_iff sid sid, waiting-remove sid sid q.sessions);
    others = λ k h. ground (arith, waiting-remove sid k q.sessions);
    total = omega arith;
    well = serve_last-IsWell now q sid entry r w here found e;
  }
  serve-Served (s ∷ rest) e = record {
    session = sid;
    rest = after q ++ before q;
    line_before = line_here;
    line_after =
        let entry_after = served now entry r (s ∷ rest) in
        let stays : (if length (waiting (insert sid entry_after q.sessions) sid) == 0
              then []
              else sid ∷ [])
            ≡ sid ∷ [] =
          ground (arith, eq_iff sid sid, waiting-insert sid sid entry_after q.sessions) in
        ap₂ (λ n o. line_at ((n + 1) % length o) o) position here
        ∙ line_at-next (before q) (after q) sid
        ∙ ap (λ l. (after q ++ before q) ++ l) (sym stays);
    first = ground (
      arith,
      e,
      eq_iff sid sid,
      waiting-insert sid sid (served now entry r (s ∷ rest)) q.sessions,
    );
    others = λ k h. ground (arith, waiting-insert sid k (served now entry r (s ∷ rest)) q.sessions);
    total = omega arith;
    well = serve_more-IsWell now q sid entry r w here found s rest e;
  }

waiting_sum-empty :
    (sessions : Assoc SessionEntry) (ks : List String) → length ks ≡ 0 → waiting_sum sessions ks ≡ 0
waiting_sum-empty sessions [] h = refl
waiting_sum-empty sessions (k ∷ ks) h = absurd (omega (arith, h))

front : (l : List Request) → 0 < length l → (r : Request) × (rest : List Request) × (l ≡ r ∷ rest)
front [] h = absurd (omega (arith, h))
front (r ∷ rest) h = (r, rest, refl)

-- `Dequeue` on a well formed queue in which requests wait answers one, at any time: the first of the
-- session that is first in line. That session goes to the end of the line if more requests wait in
-- it, and leaves the line if not; the other sessions keep their requests and their turns; the
-- queue holds one request less and stays well formed.
pub dequeue-Served :
    (now : ℕ) (q : FairQueue)
    → IsWell q
    → 0 < q.total
    → (p : FairQueue) × (r : Request) × (dequeue now q ≡ got p r) × Served q p r
unfolding dequeue scan
dequeue-Served now q w positive =
    let place : q.pos < length q.order =
      ground (arith, w.in_range, w.counted, waiting_sum-empty q.sessions q.order) in
    let (sid, at) = get_elem?-in_range q.order q.pos place in
    let here = split_at q.order q.pos sid at in
    let stands : contains q.order sid ≡ true =
      ap (λ o. contains o sid) here
      ∙ contains-append (before q) (sid ∷ after q) sid
      ∙ ground (arith, eq_iff sid sid) in
    let (r, rest, e) = front (waiting q.sessions sid) (w.nonempty sid stands) in
    elim (Option-cases (lookup sid q.sessions)) [
      | inl none_there ↦ absurd (ground arith)
      | inr (entry, found) ↦
          let requests : entry.requests ≡ r ∷ rest = ground (arith, found, e) in
          (
            serve now q sid entry r rest,
            r,
            ground (arith, found, requests, at),
            serve-Served now q sid entry r w here found place positive rest requests,
          )
    ]
