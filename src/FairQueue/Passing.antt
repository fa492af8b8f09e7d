-- ===== src/FairQueue/Passing.antt =====
-- A request that goes through an empty queue: runtime/queue/fair_queue.go.
use ai_workstation_core.Base.{
  String, List, [], ◌∷◌, some, ℕ, ◌≤◌, true, ◌≡◌, refl, ap, ◌∙◌, subst, arith, inl, inr, eq_iff,
  length, contains, Bool-cases,
}
use ai_workstation_core.Base.Assoc.{Assoc, lookup}
use ai_workstation_core.FairQueue.{
  Request, SessionEntry, FairQueue, FairnessViolation, new_fair_queue, enqueue, got, dequeue,
}
use ai_workstation_core.FairQueue.Turns.{waiting, waiting_sum, IsWell}
use ai_workstation_core.FairQueue.Enqueue.{Enqueued, enqueue-Enqueued}
use ai_workstation_core.FairQueue.Dequeue.{dequeue-Served}

pub new_fair_queue-IsWell : (max_size now : ℕ) → IsWell (new_fair_queue max_size now)
unfolding lookup
new_fair_queue-IsWell max_size now = record {
  known = λ k. refl;
  nonempty = λ k h. absurd (ground arith);
  once = refl;
  in_range = omega arith;
  counted = refl;
  bounded = omega arith;
}

waiting-bounded :
    (sessions : Assoc SessionEntry) (ks : List String) (k : String)
    → contains ks k ≡ true
    → length (waiting sessions k) ≤ waiting_sum sessions ks
waiting-bounded sessions [] k h = absurd (ground arith)
waiting-bounded sessions (j ∷ ks) k h = ground (arith, eq_iff j k, waiting-bounded sessions ks k)

waiting-empty : (q : FairQueue) (k : String) → IsWell q → q.total ≡ 0 → waiting q.sessions k ≡ []
waiting-empty q k w e = elim (Bool-cases (contains q.order k)) [
  | inl h ↦
      absurd (omega (arith, w.nonempty k h, w.counted, waiting-bounded q.sessions q.order k h))
  | inr h ↦ ground (arith, w.known k)
]

-- A request that a well formed and empty queue takes is the one that the next `Dequeue` answers, at
-- any times, and the queue is empty again after that.
pub dequeue-enqueue :
    (iterate : Assoc SessionEntry → List (String × SessionEntry)) (now later : ℕ) (q p : FairQueue)
    (r : Request) (violations : List FairnessViolation)
    → IsWell q
    → q.total ≡ 0
    → enqueue iterate now q r ≡ some (p, violations)
    → (end : FairQueue) × (dequeue later p ≡ got end r) × (end.total ≡ 0) × IsWell end
dequeue-enqueue iterate now later q p r violations w e accepted =
    let (well, total, room, places) =
      subst (λ o. Enqueued q r o) accepted (enqueue-Enqueued iterate now q r w) in
    let (end, answer, gives, s) = dequeue-Served later p well (omega (arith, total)) in
    let first : waiting p.sessions s.session ≡ answer ∷ waiting end.sessions s.session = s.first in
    let empty = waiting-empty q s.session w e in
    let same : answer ≡ r = ground (arith, first, empty, places s.session) in
    (end, gives ∙ ap (λ a. got end a) same, omega (arith, total, s.total), s.well)
