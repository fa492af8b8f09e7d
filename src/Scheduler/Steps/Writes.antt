-- ===== src/Scheduler/Steps/Writes.antt =====
-- The steps of the scheduler as sequences of commits.
use mathlib.Core.List.{foldl}
use ai_workstation_core.Base.{
  String, List, [], ◌∷◌, ◌++◌, Option, none, some, ℕ, zero, suc, ◌+◌, ◌&&◌, ◌||◌, ◌==◌, if_rule,
  option_rule,
}
use ai_workstation_core.Base.Assoc.{lookup, lookup_or}
use ai_workstation_core.Base.Sorting.{sort_strings}
use ai_workstation_core.Types.Status.{is_terminal, blocked, ready, running, skipped, terminated}
use ai_workstation_core.Types.StatusMap.{get, all_terminal}
use ai_workstation_core.Types.Graph.{Ceg}
use ai_workstation_core.Commit.{Engine, commit}
use ai_workstation_core.Commit.Histories.{Writes, done, Writes-trans, Writes-commit}
use ai_workstation_core.Ceg.Activation.{evaluate_activation, should_skip}
use ai_workstation_core.Scheduler.Steps.{
  Claims, is_ready, collect_blocked, init_node, init_status_map, recompute_node, recompute,
  claim_from, claim, terminate_node, terminate_nodes, terminate_all, set_status, Signals, WaitError,
  wait_open, wait_timed, wait_wave,
}

pub foldl-Writes :
    (step : Engine → String → Engine)
    → ((e : Engine) (id : String) → Writes e (step e id))
    → (e : Engine) (ids : List String) → Writes e (foldl step e ids)
foldl-Writes step one e [] = done
foldl-Writes step one e (id ∷ ids) = Writes-trans (one e id) (foldl-Writes step one (step e id) ids)

init_node-Writes : (ceg : Ceg) (e : Engine) (id : String) → Writes e (init_node ceg e id)
unfolding init_node
init_node-Writes ceg e id =
    option_rule (Writes e) (lookup id ceg.node_map) (λ _. done)
      λ node _.
        if_rule (Writes e) (lookup_or id ceg.in_degree 0 == 0)
          (λ _.
            if_rule (Writes e) (evaluate_activation node e.sm) (λ _. Writes-commit e id ready none)
              (λ _. Writes-commit e id skipped none))
          (λ _. Writes-commit e id blocked none)

pub recompute_node-Writes :
    (ceg : Ceg) (e : Engine) (id : String) → Writes e (recompute_node ceg e id)
unfolding recompute_node
recompute_node-Writes ceg e id =
    option_rule (Writes e) (lookup id ceg.node_map) (λ _. done)
      λ node _.
        if_rule (Writes e) (evaluate_activation node e.sm) (λ _. Writes-commit e id ready none)
          (λ _.
            if_rule (Writes e) (should_skip node e.sm) (λ _. Writes-commit e id skipped none)
              (λ _. done))

pub init_status_map-Writes : (ceg : Ceg) (e : Engine) → Writes e (init_status_map ceg e)
unfolding init_status_map
init_status_map-Writes ceg e = foldl-Writes (init_node ceg) (init_node-Writes ceg) e ceg.order

pub recompute-Writes : (ceg : Ceg) (e : Engine) → Writes e (recompute ceg e)
unfolding recompute
recompute-Writes ceg e =
    foldl-Writes (recompute_node ceg) (recompute_node-Writes ceg) e
      (sort_strings (collect_blocked e.sm))

pub terminate_node-Writes : (e : Engine) (id : String) → Writes e (terminate_node e id)
unfolding terminate_node
terminate_node-Writes e id =
    option_rule (Writes e) (get e.sm id) (λ _. done)
      λ s _.
        if_rule (Writes e) (is_terminal s) (λ _. done) (λ _. Writes-commit e id terminated none)

pub terminate_nodes-Writes : (e : Engine) (ids : List String) → Writes e (terminate_nodes e ids)
unfolding terminate_nodes
terminate_nodes-Writes = foldl-Writes terminate_node terminate_node-Writes

claim_from-Writes :
    (acc : List String) (e : Engine) (wave : List String) → Writes e (claim_from acc e wave).0
unfolding claim_from
claim_from-Writes acc e [] = done
claim_from-Writes acc e (id ∷ wave) =
    if_rule (λ (r : Engine × Claims). Writes e r.0) (is_ready (get e.sm id))
      (λ _.
        option_rule (λ (r : Engine × Claims). Writes e r.0) (commit e id running none).1
          (λ _.
            Writes-trans (Writes-commit e id running none)
              (claim_from-Writes (acc ++ id ∷ []) (set_status e id running) wave))
          (λ x _. Writes-commit e id running none))
      (λ _. claim_from-Writes acc e wave)

pub claim-Writes : (e : Engine) (wave : List String) → Writes e (claim e wave).0
unfolding claim
claim-Writes e wave = claim_from-Writes [] e wave

pub terminate_all-Writes : (ceg : Ceg) (e : Engine) → Writes e (terminate_all ceg e)
unfolding terminate_all
terminate_all-Writes ceg e = terminate_nodes-Writes e ceg.order

-- A wait that returns has only written by commits.
abbrev pub WaitWrites : Engine → Option (Engine × Option WaitError) → Type 0
WaitWrites e none = Unit
WaitWrites e (some (f, error)) = Writes e f

wait_open-Writes :
    (s : Signals) (left round : ℕ) (e : Engine) (wave : List String)
    → WaitWrites e (wait_open s left round e wave)
unfolding wait_open
wait_open-Writes s zero round e wave = tt
wait_open-Writes s (suc left) round e wave =
    if_rule (WaitWrites e) (all_terminal e.sm wave) (λ _. done)
      λ _.
        if_rule (WaitWrites e) (s.is_done round) (λ _. done)
          (λ _. wait_open-Writes s left (round + 1) e wave)

wait_timed-Writes :
    (s : Signals) (timeout left round : ℕ) (e : Engine) (wave : List String)
    → WaitWrites e (wait_timed s timeout left round e wave)
unfolding wait_timed
wait_timed-Writes s timeout zero round e wave = tt
wait_timed-Writes s timeout (suc left) round e wave =
    if_rule (WaitWrites e) (all_terminal e.sm wave) (λ _. done)
      λ _.
        if_rule (WaitWrites e) (s.is_done round && s.prefers_context round) (λ _. done)
          λ _.
            if_rule (WaitWrites e) (s.is_done round || s.is_expired timeout round)
              (λ _. terminate_nodes-Writes e wave)
              (λ _. wait_timed-Writes s timeout left (round + 1) e wave)

pub wait_wave-Writes :
    (s : Signals) (deadline : ℕ) (e : Engine) (wave : List String)
    → WaitWrites e (wait_wave s deadline e wave)
unfolding wait_wave
wait_wave-Writes s deadline e wave =
    if_rule (WaitWrites e) (deadline == 0) (λ _. wait_open-Writes s _ 0 e wave)
      (λ _. wait_timed-Writes s deadline _ 0 e wave)
