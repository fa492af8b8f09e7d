-- ===== src/Scheduler/Steps.antt =====
-- `InitStatusMap`, `Recompute`, `Claim`, `WaitWave` and `terminateAll` of
-- mek/internal/scheduler/scheduler.go. The scheduler's graph is an argument; the status map stands in
-- the commit engine.
pub mod Writes
use mathlib.Core.List.{foldl}
use ai_workstation_core.Base.{
  String, List, [], ◌∷◌, ◌++◌, Option, none, some, ℕ, zero, suc, ◌+◌, Bool, true, false, not, ◌&&◌,
  ◌||◌, if◌then◌else◌, ◌==◌, map, select,
}
use ai_workstation_core.Base.Assoc.{Assoc, lookup, lookup_or}
use ai_workstation_core.Base.Sorting.{sort_strings}
use ai_workstation_core.Types.Status.{
  NodeStatus, blocked, ready, running, skipped, terminated, is_terminal, status_eq,
}
use ai_workstation_core.Types.StatusMap.{NodeState, StatusMap, get, all_terminal}
use ai_workstation_core.Types.Graph.{CegNode, Ceg}
use ai_workstation_core.Commit.{Engine, CommitError, commit}
use ai_workstation_core.Ceg.Activation.{evaluate_activation, should_skip}

-- A commit whose error the caller drops.
abbrev pub set_status : Engine → String → NodeStatus → Engine
set_status e id status = (commit e id status none).0

-- The body of the loop of `InitStatusMap`.
unfoldable pub init_node : Ceg → Engine → String → Engine
init_node ceg e id = elim (lookup id ceg.node_map) [
  | none ↦ e
  | some node ↦
      if lookup_or id ceg.in_degree 0 == 0
      then (if evaluate_activation node e.sm
          then set_status e id ready
          else set_status e id skipped)
      else set_status e id blocked
]

unfoldable pub init_status_map : Ceg → Engine → Engine
init_status_map ceg e = foldl (init_node ceg) e ceg.order

-- The identifiers of the blocked nodes, in the order in which the map is walked.
unfoldable pub collect_blocked : StatusMap → List String
collect_blocked sm = map (λ entry. entry.0) (select (λ entry. status_eq entry.1.status blocked) sm)

-- The body of the loop of `Recompute`.
unfoldable pub recompute_node : Ceg → Engine → String → Engine
recompute_node ceg e id = elim (lookup id ceg.node_map) [
  | none ↦ e
  | some node ↦
      if evaluate_activation node e.sm
      then set_status e id ready
      else if should_skip node e.sm
      then set_status e id skipped
      else e
]

unfoldable pub recompute : Ceg → Engine → Engine
recompute ceg e = foldl (recompute_node ceg) e (sort_strings (collect_blocked e.sm))

pub data Claims : Type 0 where
  claimed : List String → Claims
  claim_failed : String → CommitError → Claims

-- `ok && status == READY`
abbrev pub is_ready : Option NodeStatus → Bool
is_ready none = false
is_ready (some s) = status_eq s ready

-- `Claim`, with the nodes that were claimed so far.
unfoldable pub claim_from : List String → Engine → List String → Engine × Claims
claim_from acc e [] = (e, claimed acc)
claim_from acc e (id ∷ wave) =
    let passed = claim_from acc e wave in
    let taken = claim_from (acc ++ id ∷ []) (set_status e id running) wave in
    if is_ready (get e.sm id)
    then elim (commit e id running none).1 [
      | some x ↦ (set_status e id running, claim_failed id x)
      | none ↦ taken
    ]
    else passed

unfoldable pub claim : Engine → List String → Engine × Claims
claim e wave = claim_from [] e wave

-- The loops that terminate every node of a list that is present and not terminal: `terminateAll`, and
-- the ends of a wave's deadline.
unfoldable pub terminate_node : Engine → String → Engine
terminate_node e id = elim (get e.sm id) [
  | none ↦ e
  | some s ↦ if is_terminal s then e else set_status e id terminated
]

unfoldable pub terminate_nodes : Engine → List String → Engine
terminate_nodes e ids = foldl terminate_node e ids

unfoldable pub terminate_all : Ceg → Engine → Engine
terminate_all ceg e = terminate_nodes e ceg.order

pub data WaitError : Type 0 where
  deadline_expired context_done : WaitError

-- What the wait sees from outside. In a round of its loop, counted from 0: is the caller's context
-- done; is the time over that a context of the given timeout has; and which case does the `select`
-- take when both are ready. `rounds` is how many polls are followed, for a timeout (0: there is none).
pub record Signals : Type 0 where
  pub is_done : ℕ → Bool
  pub is_expired : (timeout round : ℕ) → Bool
  pub prefers_context : ℕ → Bool
  pub rounds : (timeout : ℕ) → ℕ

-- The wait of a wave without a deadline; `none`: the loop has not ended in the rounds that are left.
-- While it polls, nobody writes the status map.
unfoldable pub wait_open :
    Signals → (left round : ℕ) → Engine → List String → Option (Engine × Option WaitError)
wait_open s zero round e wave = none
wait_open s (suc left) round e wave =
    let rest = wait_open s left (round + 1) e wave in
    if all_terminal e.sm wave
    then some (e, none)
    else if s.is_done round
    then some (e, some context_done)
    else rest

-- The wait of a wave with a deadline. Its context is derived from the caller's: it is done when that
-- one is, or when the time is over.
unfoldable pub wait_timed :
    Signals → (timeout left round : ℕ) → Engine → List String → Option (Engine × Option WaitError)
wait_timed s timeout zero round e wave = none
wait_timed s timeout (suc left) round e wave =
    let rest = wait_timed s timeout left (round + 1) e wave in
    if all_terminal e.sm wave
    then some (e, none)
    else if s.is_done round && s.prefers_context round
    then some (e, some context_done)
    else if s.is_done round || s.is_expired timeout round
    then some (terminate_nodes e wave, some deadline_expired)
    else rest

-- `WaitWave`
unfoldable pub wait_wave : Signals → ℕ → Engine → List String → Option (Engine × Option WaitError)
wait_wave s deadline e wave =
    if deadline == 0
    then wait_open s (suc (s.rounds 0)) 0 e wave
    else wait_timed s deadline (suc (s.rounds deadline)) 0 e wave
