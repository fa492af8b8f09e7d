-- ===== src/Scheduler/Ends.antt =====
-- How the loop ends: what a terminated set of nodes, a finished wait and an escalation leave behind,
-- how long a wait polls, and when a run returns.
pub mod Escalation
pub mod Waits
pub mod Returns
use mathlib.Core.List.{foldl}
use ai_workstation_core.Base.{
  String, List, [], ◌∷◌, Option, none, some, ℕ, zero, suc, ◌+◌, Bool, true, false, ◌≡◌, ◌↔◌, ◌⊎◌,
  inl, inr, refl, arith, if_rule, option_rule, all, ◌&&◌, ap, sym, ◌∙◌, and_intro, and_left,
  and_right, Bool-cases, Option-cases, subst, if◌then◌else◌, ◌==◌, ◌<◌,
}
use ai_workstation_core.Base.Assoc.{lookup}
use ai_workstation_core.Types.Status.{
  NodeStatus, blocked, ready, running, success, failure, skipped, terminated, other, is_terminal,
}
use ai_workstation_core.Types.StatusMap.{StatusMap, get, all_terminal}
use ai_workstation_core.Commit.{Engine, commit}
use ai_workstation_core.Commit.Transitions.{
  ◌⟶◌, ◌⟶*◌, here, hop, activate, stop_blocked, stop_ready, stop_running,
}
use ai_workstation_core.Commit.Laws.{Accepts, commit-Accepts_iff, commit_writes}
use ai_workstation_core.Commit.Histories.{
  Writes, Writes-commit, Writes-Path*, Path*, absent, along, get_frozen,
}
use ai_workstation_core.Scheduler.Steps.{
  set_status, terminate_node, terminate_nodes, Signals, deadline_expired, context_done, WaitError,
  wait_open, wait_timed, wait_wave,
}
use ai_workstation_core.Scheduler.Steps.Writes.{terminate_node-Writes, terminate_nodes-Writes}

-- Present, with one of the seven statuses of the diagram.
abbrev pub is_known : Option NodeStatus → Bool
is_known none = false
is_known (some (other s)) = false
is_known (some _) = true

abbrev pub all_known : StatusMap → List String → Bool
all_known sm ids = all (λ id. is_known (get sm id)) ids

abbrev is_over : Option NodeStatus → Bool
is_over none = false
is_over (some s) = is_terminal s

is_known-⟶* : {s t : NodeStatus} → s ⟶* t → is_known (some s) ≡ true → is_known (some t) ≡ true
is_known-⟶* here h = h
is_known-⟶* (hop e p) h = is_known-⟶* p (target e)
  where
    target : {s t : NodeStatus} → s ⟶ t → is_known (some t) ≡ true
    target activate = refl
    target _ = refl

pub is_known-Writes :
    {e f : Engine} (id : String)
    → Writes e f
    → is_known (get e.sm id) ≡ true
    → is_known (get f.sm id) ≡ true
is_known-Writes id w h = step (Writes-Path* id w) h
  where
    step : {a b : Option NodeStatus} → Path* a b → is_known a ≡ true → is_known b ≡ true
    step absent k = cc
    step (along p) k = is_known-⟶* p k

pub all_known-Writes :
    {e f : Engine}
    → Writes e f
    → (ids : List String) → all_known e.sm ids ≡ true
    → all_known f.sm ids ≡ true
all_known-Writes w [] h = refl
all_known-Writes w (id ∷ ids) h = ground (arith, is_known-Writes id w, all_known-Writes w ids)

is_over-Writes :
    {e f : Engine} (id : String)
    → Writes e f
    → is_over (get e.sm id) ≡ true
    → is_over (get f.sm id) ≡ true
is_over-Writes {e} id w h = elim (Option-cases (get e.sm id)) [
  | inl missing ↦ absurd (ground arith)
  | inr (s, found) ↦ ground (arith, get_frozen id s w)
]

stoppable : (s : NodeStatus) → is_known (some s) ≡ true → is_terminal s ≡ false → s ⟶ terminated
unfolding is_terminal
stoppable blocked h k = stop_blocked
stoppable ready h k = stop_ready
stoppable running h k = stop_running
stoppable _ h k = cc

terminated_over :
    (e : Engine) (id : String) {s : NodeStatus}
    → get e.sm id ≡ some s
    → s ⟶ terminated
    → is_over (get (set_status e id terminated).sm id) ≡ true
unfolding is_terminal
terminated_over e id found edge = ap is_over (
    commit_writes e id terminated none (
      (commit-Accepts_iff e id terminated none).1
        (subst (λ o. Accepts o terminated) (sym found) (inr edge))))

-- `terminate_node` leaves a known node in a terminal status.
terminate_node_over :
    (e : Engine) (id : String)
    → is_known (get e.sm id) ≡ true
    → is_over (get (terminate_node e id).sm id) ≡ true
unfolding terminate_node
terminate_node_over e id h =
    option_rule (λ (f : Engine). is_over (get f.sm id) ≡ true) (get e.sm id)
      (λ missing. cc (ap is_known missing))
      λ s found.
        if_rule (λ (f : Engine). is_over (get f.sm id) ≡ true) (is_terminal s)
          (λ final. rw found final)
          (λ active. terminated_over e id found (stoppable s (rw found at h) active))

-- `terminate_nodes` leaves all its nodes terminal, if they were known.
terminate_nodes_over :
    (e : Engine) (ids : List String)
    → all_known e.sm ids ≡ true
    → all (λ id. is_over (get (terminate_nodes e ids).sm id)) ids ≡ true
unfolding terminate_nodes
terminate_nodes_over e [] h = refl
terminate_nodes_over e (id ∷ ids) h =
    let e' = terminate_node e id in
    and_intro _ _
      (is_over-Writes id (terminate_nodes-Writes e' ids)
        (terminate_node_over e id (and_left _ _ h)))
      (terminate_nodes_over e' ids
        (all_known-Writes (terminate_node-Writes e id) ids (and_right _ _ h)))

all_terminal_over :
    (sm : StatusMap) (ids : List String) → all_terminal sm ids ≡ all (λ id. is_over (get sm id)) ids
unfolding all_terminal get
all_terminal_over sm [] = refl
all_terminal_over sm (id ∷ ids) = ground (arith, all_terminal_over sm ids)

-- Terminating a list of nodes, each present with a status of the diagram, leaves all of them
-- terminal.
pub terminate_nodes-all_terminal :
    (e : Engine) (ids : List String)
    → all_known e.sm ids ≡ true
    → all_terminal (terminate_nodes e ids).sm ids ≡ true
terminate_nodes-all_terminal e ids h =
    rw (all_terminal_over (terminate_nodes e ids).sm ids) (terminate_nodes_over e ids h)

wait_open-returns :
    (s : Signals) (left round : ℕ) (e f : Engine) (wave : List String) (error : Option WaitError)
    → wait_open s left round e wave ≡ some (f, error)
    → (f ≡ e) × ((all_terminal e.sm wave ≡ true) × (error ≡ none) ⊎ (error ≡ some context_done))
unfolding wait_open
wait_open-returns s zero round e f wave error h = absurd (cc h)
wait_open-returns s (suc left) round e f wave error h =
    ground (arith, wait_open-returns s left (round + 1) e f wave error)

wait_timed-returns :
    (s : Signals) (timeout left round : ℕ) (e f : Engine) (wave : List String)
    (error : Option WaitError)
    → wait_timed s timeout left round e wave ≡ some (f, error)
    → (f ≡ e) × (all_terminal e.sm wave ≡ true) × (error ≡ none)
      ⊎ (f ≡ e) × (error ≡ some context_done)
      ⊎ (f ≡ terminate_nodes e wave) × (error ≡ some deadline_expired)
unfolding wait_timed
wait_timed-returns s timeout zero round e f wave error h = absurd (cc h)
wait_timed-returns s timeout (suc left) round e f wave error h =
    ground (arith, wait_timed-returns s timeout left (round + 1) e f wave error)

-- If every node of the wave is present with a status of the diagram and the wait returns, then
-- either all of them are terminal, with no error and nothing written or by the deadline, or the
-- context was done and nothing was written.
pub wait_wave-returns :
    (s : Signals) (deadline : ℕ) (e f : Engine) (wave : List String) (error : Option WaitError)
    → all_known e.sm wave ≡ true
    → wait_wave s deadline e wave ≡ some (f, error)
    → (all_terminal f.sm wave ≡ true) × ((error ≡ none) × (f ≡ e) ⊎ (error ≡ some deadline_expired))
      ⊎ (error ≡ some context_done) × (f ≡ e)
unfolding wait_wave
wait_wave-returns s deadline e f wave error known h = elim (Bool-cases (deadline == 0)) [
  | inl unlimited ↦
      let (same, how) = wait_open-returns s _ 0 e f wave error (rw unlimited at h) in
      elim how [
        | inl (over, fine) ↦ inl (rw same over, inl (fine, same))
        | inr gone ↦ inr (gone, same)
      ]
  | inr timed ↦ elim (wait_timed-returns s deadline _ 0 e f wave error (rw timed at h)) [
    | inl (same, over, fine) ↦ inl (rw same over, inl (fine, same))
    | inr (inl (same, gone)) ↦ inr (gone, same)
    | inr (inr (stopped, late)) ↦
        inl (rw stopped (terminate_nodes-all_terminal e wave known), inr late)
  ]
]
