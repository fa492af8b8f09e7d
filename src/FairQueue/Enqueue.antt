-- ===== src/FairQueue/Enqueue.antt =====
-- `Enqueue` of runtime/queue/fair_queue.go.
use ai_workstation_core.Base.{
  String, List, [], ◌∷◌, ◌++◌, Option, none, some, ℕ, ◌+◌, ◌-◌, ◌<◌, ◌≡◌, refl, sym, ap, ◌∙◌, arith,
  eq_iff, if◌then◌else◌, ltb, leb, str_eq, length-append, if_rule, option_rule,
}
use ai_workstation_core.Base.Assoc.{Assoc, lookup, insert, lookup-insert}
use ai_workstation_core.FairQueue.{
  Request, SessionEntry, FairQueue, FairnessViolation, session_of, append_request, opened, longer,
  open_session, extend_session, check_fairness, enqueue,
}
use ai_workstation_core.FairQueue.Turns.{
  waiting, waiting-insert, IsWell, contains-append, waiting_sum-append, distinct-snoc,
  waiting_sum-unchanged, waiting_sum-changed,
}

append_request-waiting :
    (now : ℕ) (q : FairQueue) (r : Request) (k : String)
    → waiting (append_request now q r).sessions k
      ≡ (if str_eq (session_of r) k then waiting q.sessions k ++ r ∷ [] else waiting q.sessions k)
append_request-waiting now q r k =
    option_rule
      (λ (p : FairQueue). waiting p.sessions k ≡ (
        if str_eq (session_of r) k then waiting q.sessions k ++ r ∷ [] else waiting q.sessions k))
      (lookup (session_of r) q.sessions)
      (λ e.
        ground (
          arith,
          eq_iff (session_of r) k,
          waiting-insert (session_of r) k (opened now r) q.sessions,
        ))
      (λ entry e. ground (
        arith,
        eq_iff (session_of r) k,
        waiting-insert (session_of r) k (longer r entry) q.sessions,
      ))

module _ (q : FairQueue) (r : Request) (w : IsWell q) (room : q.total < q.max_size) where
  open_session-IsWell :
      (now : ℕ) → lookup (session_of r) q.sessions ≡ none → IsWell (open_session now q r)
  open_session-IsWell now e = record {
    known = λ k. ground (
      arith,
      eq_iff (session_of r) k,
      w.known k,
      lookup-insert (session_of r) k (opened now r) q.sessions,
      contains-append q.order (session_of r ∷ []) k,
    );
    nonempty = λ k h. ground (
      arith,
      eq_iff (session_of r) k,
      w.nonempty k,
      waiting-insert (session_of r) k (opened now r) q.sessions,
      contains-append q.order (session_of r ∷ []) k,
    );
    once =
        distinct-snoc q.order (session_of r) w.once (sym (w.known (session_of r)) ∙ ground arith);
    in_range = omega (arith, w.in_range, length-append q.order (session_of r ∷ []));
    counted =
        let after = insert (session_of r) (opened now r) q.sessions in
        ground (
          arith,
          eq_iff (session_of r) (session_of r),
          w.counted,
          w.known (session_of r),
          waiting_sum-append after q.order (session_of r ∷ []),
          waiting-insert (session_of r) (session_of r) (opened now r) q.sessions,
          waiting_sum-unchanged q.sessions after (session_of r)
              (λ k h. ground (arith, h, waiting-insert (session_of r) k (opened now r) q.sessions))
              q.order,
        );
    bounded = omega arith;
  }

  extend_session-IsWell :
      (entry : SessionEntry)
      → lookup (session_of r) q.sessions ≡ some entry
      → IsWell (extend_session q r entry)
  extend_session-IsWell entry e = record {
    known = λ k. ground (
      arith,
      eq_iff (session_of r) k,
      w.known k,
      lookup-insert (session_of r) k (longer r entry) q.sessions,
    );
    nonempty = λ k h. ground (
      arith,
      eq_iff (session_of r) k,
      w.nonempty k,
      waiting-insert (session_of r) k (longer r entry) q.sessions,
      length-append entry.requests (r ∷ []),
    );
    once = w.once;
    in_range = w.in_range;
    counted =
        let after = insert (session_of r) (longer r entry) q.sessions in
        ground (
          arith,
          eq_iff (session_of r) (session_of r),
          w.counted,
          w.known (session_of r),
          length-append entry.requests (r ∷ []),
          waiting-insert (session_of r) (session_of r) (longer r entry) q.sessions,
          waiting_sum-changed q.sessions after (session_of r)
              (λ k h.
                ground (arith, h, waiting-insert (session_of r) k (longer r entry) q.sessions))
              q.order w.once,
        );
    bounded = omega arith;
  }

check_fairness-IsWell :
    (iterate : Assoc SessionEntry → List (String × SessionEntry)) (now : ℕ) (q : FairQueue)
    → IsWell q
    → IsWell (check_fairness iterate now q).0
unfolding check_fairness
check_fairness-IsWell iterate now q w =
    if_rule (λ (r : FairQueue × List FairnessViolation). IsWell r.0)
      (ltb (now - q.last_check) 1000000000) (λ soon. w)
      (λ late. record {
        known = w.known;
        nonempty = w.nonempty;
        once = w.once;
        in_range = w.in_range;
        counted = w.counted;
        bounded = w.bounded;
      })

-- What an answer of `Enqueue` means: the error comes at the limit; otherwise the queue after it is
-- well formed, and the request waits at the end of its session, alone of all changes.
abbrev pub Enqueued : FairQueue → Request → Option (FairQueue × List FairnessViolation) → Type 0
Enqueued q r none = q.total ≡ q.max_size
Enqueued q r (some (p, violations)) =
    IsWell p
    × (p.total ≡ q.total + 1)
    × (q.total < q.max_size)
    × ((k : String)
        → waiting p.sessions k ≡ (
            if str_eq (session_of r) k
            then waiting q.sessions k ++ r ∷ []
            else waiting q.sessions k))

module _ (iterate : Assoc SessionEntry → List (String × SessionEntry)) where
  append_request-total :
      (now : ℕ) (q : FairQueue) (r : Request) → (append_request now q r).total ≡ q.total + 1
  append_request-total now q r =
      option_rule (λ (p : FairQueue). p.total ≡ q.total + 1) (lookup (session_of r) q.sessions)
        (λ e. refl) (λ entry e. refl)

  append_request-IsWell :
      (now : ℕ) (q : FairQueue) (r : Request)
      → IsWell q
      → q.total < q.max_size
      → IsWell (append_request now q r)
  append_request-IsWell now q r w room =
      option_rule IsWell (lookup (session_of r) q.sessions)
        (λ e. open_session-IsWell q r w room now e)
        (λ entry e. extend_session-IsWell q r w room entry e)

  check_fairness-keeps :
      (now : ℕ) (q : FairQueue)
      → ((check_fairness iterate now q).0.total ≡ q.total)
        × ((check_fairness iterate now q).0.sessions ≡ q.sessions)
  unfolding check_fairness
  check_fairness-keeps now q =
      if_rule
        (λ (p : FairQueue × List FairnessViolation).
          (p.0.total ≡ q.total) × (p.0.sessions ≡ q.sessions))
        (ltb (now - q.last_check) 1000000000) (λ soon. (refl, refl)) (λ late. (refl, refl))

  -- `Enqueue` on a well formed queue, for any request, clock and order of the sessions: it answers
  -- the error exactly when the queue holds as many requests as its limit; otherwise it keeps the
  -- queue well formed and the request waits last in its session, the empty session being `_global`,
  -- while what waits in the other sessions stays.
  pub enqueue-Enqueued :
      (now : ℕ) (q : FairQueue) (r : Request) → IsWell q → Enqueued q r (enqueue iterate now q r)
  unfolding enqueue
  enqueue-Enqueued now q r w =
      if_rule (λ (o : Option (FairQueue × List FairnessViolation)). Enqueued q r o)
        (leb q.max_size q.total) (λ full. ground (arith, w.bounded))
        (λ room.
          let p = append_request now q r in
          let (t, s) = check_fairness-keeps now p in
          (
            check_fairness-IsWell iterate now p (append_request-IsWell now q r w (ground arith)),
            t ∙ append_request-total now q r,
            ground arith,
            λ k. ap (λ m. waiting m k) s ∙ append_request-waiting now q r k,
          ))
