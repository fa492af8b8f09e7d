-- ===== src/Release/Restart.antt =====
-- The queue of releases over its whole use, restarts included: runtime/mcp/release/queue.go.
use mathlib.Core.List.{foldl}
use ai_workstation_core.Base.{
  String, List, [], ◌∷◌, ◌++◌, Option, none, some, ℕ, zero, suc, ◌<◌, Bool, false, ◌≡◌, inl, inr,
  arith, str_eq, All, get_elem?, Bool-cases, Option-cases, ap, sym, subst,
}
use ai_workstation_core.Release.{
  publishing, ReleaseInput, ReleaseEntry, is_ready, pending_count, dequeue, recover, recover_entry,
  complete, enqueue,
}

-- What can happen to a queue: its operations, with the time, and a restart.
pub data Call : Type 0 where
  enqueues : ℕ → ReleaseInput → Call
  dequeues : ℕ → Call
  completes : ℕ → String → Bool → String → Call
  restarts : Call

-- The entries after a `Dequeue`, whether it takes a release or not.
abbrev pub left_by :
    List ReleaseEntry → Option (ReleaseEntry × List ReleaseEntry) → List ReleaseEntry
left_by entries none = entries
left_by entries (some (e, after)) = after

-- Nobody reports the end of this release.
abbrev pub Spares : String → Call → Type 0
Spares id (completes now other success text) = str_eq id other ≡ false
Spares id _ = Unit

module _ (backoff : ℕ → String → String → ℕ) (id_of key_of : ReleaseInput → String) where
  abbrev pub perform : List ReleaseEntry → Call → List ReleaseEntry
  perform entries (enqueues now input) = enqueue backoff id_of key_of now input entries
  perform entries (dequeues now) = left_by entries (dequeue now entries)
  perform entries (completes now id success text) = complete backoff now id success text entries
  perform entries restarts = recover entries

  abbrev pub perform_all : List ReleaseEntry → List Call → List ReleaseEntry
  perform_all entries calls = foldl perform entries calls

get_elem?-append :
    (entries more : List ReleaseEntry) (i : ℕ) (e : ReleaseEntry)
    → get_elem? entries i ≡ some e
    → get_elem? (entries ++ more) i ≡ some e
get_elem?-append [] more i e h = absurd (cc h)
get_elem?-append (f ∷ entries) more zero e h = h
get_elem?-append (f ∷ entries) more (suc i) e h = get_elem?-append entries more i e h

-- An entry that is being published, at the place `i`.
abbrev pub IsPublishing : List ReleaseEntry → ℕ → ReleaseEntry → Type 0
IsPublishing entries i e = (get_elem? entries i ≡ some e) × (e.status ≡ publishing)

head-same : (f e : ReleaseEntry) → some f ≡ some e → f ≡ e
head-same f e h = cc h

recover-keeps :
    (entries : List ReleaseEntry) (i : ℕ) (e : ReleaseEntry)
    → IsPublishing entries i e
    → get_elem? (recover entries) i ≡ some e
unfolding recover
recover-keeps [] i e (h, p) = absurd (cc h)
recover-keeps (f ∷ entries) zero e (h, p) =
    subst (λ (g : ReleaseEntry). some (recover_entry g) ≡ some e) (sym (head-same f e h))
      (ground arith)
recover-keeps (f ∷ entries) (suc i) e h = recover-keeps entries i e h

dequeue-keeps :
    (now : ℕ) (entries : List ReleaseEntry) (i : ℕ) (e : ReleaseEntry)
    → IsPublishing entries i e
    → get_elem? (left_by entries (dequeue now entries)) i ≡ some e
unfolding dequeue
dequeue-keeps now [] i e (h, p) = absurd (cc h)
dequeue-keeps now (f ∷ entries) zero e (h, p) =
    let same = head-same f e h in
    elim (Option-cases (dequeue now entries)) [
      | inl none_left ↦ ground (arith, none_left, ap (λ (g : ReleaseEntry). g.status) same)
      | inr ((g, rest), found) ↦ ground (arith, found, ap (λ (g : ReleaseEntry). g.status) same)
    ]
dequeue-keeps now (f ∷ entries) (suc i) e h =
    let kept = dequeue-keeps now entries i e h in
    elim (Bool-cases (is_ready now f)) [
      | inl ready ↦ rw ready h.0
      | inr waits ↦ elim (Option-cases (dequeue now entries)) [
        | inl none_left ↦ rw (waits, none_left) h.0
        | inr ((g, rest), found) ↦ rw (waits, found) (rw found at kept)
      ]
    ]

pending_count-positive :
    (entries : List ReleaseEntry) (i : ℕ) (e : ReleaseEntry)
    → IsPublishing entries i e
    → 0 < pending_count entries
unfolding pending_count
pending_count-positive [] i e (h, p) = absurd (cc h)
pending_count-positive (f ∷ entries) zero e (h, p) =
    let same = head-same f e h in ground (arith, ap (λ (g : ReleaseEntry). g.status) same)
pending_count-positive (f ∷ entries) (suc i) e h =
    ground (arith, pending_count-positive entries i e h)

module _ (backoff : ℕ → String → String → ℕ) (id_of key_of : ReleaseInput → String) where
  complete-keeps :
      (now : ℕ) (id : String) (success : Bool) (text : String) (entries : List ReleaseEntry) (i : ℕ)
      (e : ReleaseEntry)
      → str_eq e.release_id id ≡ false
      → get_elem? entries i ≡ some e
      → get_elem? (complete backoff now id success text entries) i ≡ some e
  unfolding complete
  complete-keeps now id success text [] i e other h = absurd (cc h)
  complete-keeps now id success text (f ∷ entries) zero e other h =
      let same = head-same f e h in
      ground (arith, ap (λ (g : ReleaseEntry). str_eq g.release_id id) same)
  complete-keeps now id success text (f ∷ entries) (suc i) e other h =
      elim (Bool-cases (str_eq f.release_id id)) [
        | inl here ↦ rw here h
        | inr there ↦ rw there (complete-keeps now id success text entries i e other h)
      ]

  perform-keeps :
      (entries : List ReleaseEntry) (call : Call) (i : ℕ) (e : ReleaseEntry)
      → Spares e.release_id call
      → IsPublishing entries i e
      → get_elem? (perform backoff id_of key_of entries call) i ≡ some e
  unfolding enqueue
  perform-keeps entries (enqueues now input) i e spared h = get_elem?-append entries _ i e h.0
  perform-keeps entries (dequeues now) i e spared h = dequeue-keeps now entries i e h
  perform-keeps entries (completes now id success text) i e spared h =
      complete-keeps now id success text entries i e spared h.0
  perform-keeps entries restarts i e spared h = recover-keeps entries i e h

  -- A release that is being published stays as it is, at its place, through any sequence of
  -- `Enqueue`, `Dequeue`, `Complete` of other identifiers and restarts, and some release is counted
  -- as pending at the end.
  pub perform_all-abandoned :
      (entries : List ReleaseEntry) (calls : List Call) (i : ℕ) (e : ReleaseEntry)
      → All (Spares e.release_id) calls
      → get_elem? entries i ≡ some e
      → e.status ≡ publishing
      → (get_elem? (perform_all backoff id_of key_of entries calls) i ≡ some e)
        × (0 < pending_count (perform_all backoff id_of key_of entries calls))
  perform_all-abandoned entries [] i e spared h p = (h, pending_count-positive entries i e (h, p))
  perform_all-abandoned entries (call ∷ calls) i e spared h p =
      perform_all-abandoned (perform backoff id_of key_of entries call) calls i e spared.1
        (perform-keeps entries call i e spared.0 (h, p)) p
