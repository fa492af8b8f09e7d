-- ===== src/Release/Laws.antt =====
-- The releases that are pending: runtime/mcp/release/queue.go.
use ai_workstation_core.Base.{
  String, List, [], ◌∷◌, some, ℕ, ◌+◌, Bool, true, ◌&&◌, not, ◌≡◌, ◌⊎◌, ap, ◌∙◌, subst, arith,
  eq_iff, str_eq, any, Bool-cases, Option-cases, inl, inr,
}
use ai_workstation_core.Release.{
  ReleaseEntry, is_ready, pending_count, start_publishing, dequeue, complete,
}

abbrev pub has_id : String → List ReleaseEntry → Bool
has_id id entries = any (λ (e : ReleaseEntry). str_eq e.release_id id) entries

-- No identifier stands twice.
abbrev pub distinct : List ReleaseEntry → Bool
distinct [] = true
distinct (e ∷ entries) = not (has_id e.release_id entries) && distinct entries

some-injective : (x y : ReleaseEntry × List ReleaseEntry) → some x ≡ some y → x ≡ y
some-injective x y h = cc h

-- Which entry `Dequeue` answers: the first one, or one of the others.
dequeue-cons :
    (now : ℕ) (f : ReleaseEntry) (entries after : List ReleaseEntry) (e : ReleaseEntry)
    → dequeue now (f ∷ entries) ≡ some (e, after)
    → ((is_ready now f ≡ true)
        × (start_publishing now f ≡ e)
        × (start_publishing now f ∷ entries ≡ after))
      ⊎ ((rest : List ReleaseEntry) × (dequeue now entries ≡ some (e, rest)) × (f ∷ rest ≡ after))
unfolding dequeue
dequeue-cons now f entries after e h = elim (Bool-cases (is_ready now f)) [
  | inl ready ↦
      let same =
        some-injective (start_publishing now f, start_publishing now f ∷ entries) (e, after)
          (ground (arith, ready, h)) in
      inl (ready, ap (λ r. r.0) same, ap (λ r. r.1) same)
  | inr waits ↦ elim (Option-cases (dequeue now entries)) [
    | inl none_left ↦ absurd (ground (arith, waits, none_left, h))
    | inr ((g, rest), found) ↦
        let same = some-injective (g, f ∷ rest) (e, after) (ground (arith, waits, found, h)) in
        inr (
          rest,
          found ∙ ap (λ (x : ReleaseEntry). some (x, rest)) (ap (λ r. r.0) same),
          ap (λ r. r.1) same,
        )
  ]
]

dequeue-has_id :
    (now : ℕ) (entries after : List ReleaseEntry) (e : ReleaseEntry)
    → dequeue now entries ≡ some (e, after)
    → has_id e.release_id entries ≡ true
unfolding dequeue
dequeue-has_id now [] after e h = absurd (cc h)
dequeue-has_id now (f ∷ entries) after e h = elim (dequeue-cons now f entries after e h) [
  | inl (ready, same, out) ↦
      ground (arith, ap (λ (x : ReleaseEntry). x.release_id) same, eq_iff f.release_id e.release_id)
  | inr (rest, found, out) ↦ ground (arith, dequeue-has_id now entries rest e found)
]

-- In a queue without repeated identifiers, if `Dequeue` answers a release and `Complete` then reports
-- its success, one release less is pending than before.
pub complete-dequeue :
    (backoff : ℕ → String → String → ℕ) (now later : ℕ) (entries after : List ReleaseEntry)
    (e : ReleaseEntry) (text : String)
    → distinct entries ≡ true
    → dequeue now entries ≡ some (e, after)
    → pending_count (complete backoff later e.release_id true text after) + 1
      ≡ pending_count entries
unfolding dequeue complete pending_count
complete-dequeue backoff now later [] after e text d h = absurd (cc h)
complete-dequeue backoff now later (f ∷ entries) after e text d h =
    elim (dequeue-cons now f entries after e h) [
      | inl (ready, same, out) ↦
          subst
            (λ l.
              pending_count (complete backoff later e.release_id true text l) + 1
              ≡ pending_count (f ∷ entries))
            out
            (ground (
              arith,
              ready,
              ap (λ (x : ReleaseEntry). x.release_id) same,
              eq_iff f.release_id e.release_id,
            ))
      | inr (rest, found, out) ↦
          subst
            (λ l.
              pending_count (complete backoff later e.release_id true text l) + 1
              ≡ pending_count (f ∷ entries))
            out
            (ground (
              arith,
              eq_iff f.release_id e.release_id,
              dequeue-has_id now entries rest e found,
              complete-dequeue backoff now later entries rest e text (ground arith) found,
            ))
    ]
