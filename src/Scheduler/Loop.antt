-- ===== src/Scheduler/Loop.antt =====
-- `RunLoop` of mek/internal/scheduler/scheduler.go.
pub mod Writes
use ai_workstation_core.Base.{
  String, List, [], ◌∷◌, Option, none, some, ℕ, suc, ◌+◌, Bool, true, false, not, ◌&&◌,
  if◌then◌else◌, ltb, str_eq, any,
}
use ai_workstation_core.Base.Assoc.{Assoc, lookup}
use ai_workstation_core.Types.Status.{NodeStatus, failure, terminated, status_eq}
use ai_workstation_core.Types.StatusMap.{Value, text, ExecutionResult}
use ai_workstation_core.Types.Graph.{CegNode, Ceg}
use ai_workstation_core.Commit.{Engine, CommitError, commit}
use ai_workstation_core.Scheduler.Steps.{
  Signals, WaitError, Claims, claimed, claim_failed, recompute, claim, terminate_all,
  terminate_nodes, wait_wave,
}

pub record Metrics : Type 0 where
  pub nodes_executed : ℕ
  pub nodes_failed : ℕ
  pub waves_completed : ℕ
  pub escalation_requested : Bool

abbrev pub no_metrics : Metrics
no_metrics = record {
  nodes_executed = 0;
  nodes_failed = 0;
  waves_completed = 0;
  escalation_requested = false;
}

-- What becomes of the dispatch of a node: a result, an error with its text, neither of them, a panic
-- in its goroutine, or no end.
pub data Dispatched : Type 0 where
  returned : ExecutionResult → Dispatched
  failed : String → Dispatched
  nothing panics blocks : Dispatched

-- What the loop does not decide. The first two arguments are the indices of the layer and the wave.
-- `arrival` is the order in which the goroutines of a wave end, those that never do anywhere;
-- `duration` is `DeadlineDuration`, with 0 for an error or a time that has passed.
pub record Env : Type 0 where
  pub dispatch : ℕ → ℕ → String → Dispatched
  pub arrival : ℕ → ℕ → List String → List String
  pub duration : String → ℕ
  pub signals : ℕ → ℕ → Signals

pub record Run : Type 0 where
  pub engine : Engine
  pub metrics : Metrics

-- `hangs`: the loop waits for a dispatch that never ends, or `WaitWave` has not ended in the rounds
-- that are followed. `aborted` is a failed claim, which returns no output; `panicked` is a panic, which
-- ends the program.
pub data Outcome : Type 0 where
  continues : Run → Outcome
  escalated : Run → Outcome
  aborted : Engine → String → CommitError → Outcome
  hangs : Engine → Outcome
  panicked : Engine → Outcome

abbrev pub failure_result : String → ExecutionResult
failure_result message = record {
  status = failure;
  outputs = some (("error", text message) ∷ []);
  artifacts = none;
  escalation = false;
  selected_branch = "";
  metrics = record { duration_ms = 0; tokens_used = none };
}

abbrev pub final_status : ExecutionResult → NodeStatus
final_status r = if r.escalation then terminated else r.status

-- One goroutine that ends. A blocked one delivers nothing; a result that is nil is read.
unfoldable pub accept : Ceg → Run → String → Dispatched → Outcome
accept ceg run id blocks = continues run
accept ceg run id nothing = panicked run.engine
accept ceg run id panics = panicked run.engine
accept ceg run id (failed message) = continues (record {
  engine = (commit run.engine id failure (some (failure_result message))).0;
  metrics = record run.metrics { nodes_failed = run.metrics.nodes_failed + 1 };
})
accept ceg run id (returned r) =
    let status = final_status r in
    let e = (commit run.engine id status (some r)).0 in
    let m = record run.metrics {
      nodes_executed = run.metrics.nodes_executed + 1;
      nodes_failed =
          if status_eq status failure
          then run.metrics.nodes_failed + 1
          else run.metrics.nodes_failed;
    } in
    if r.escalation
    then escalated (record {
      engine = terminate_all ceg e;
      metrics = record m { escalation_requested = true };
    })
    else continues (record { engine = e; metrics = m })

-- Sequencing: all but a run that continues end the loop.
abbrev pub and_then : Outcome → (Run → Outcome) → Outcome
and_then (continues run) k = k run
and_then (escalated run) k = escalated run
and_then (aborted e id x) k = aborted e id x
and_then (hangs e) k = hangs e
and_then (panicked e) k = panicked e

-- The loop over the results that arrive in the channel.
unfoldable pub collect : Ceg → (String → Dispatched) → Run → List String → Outcome
collect ceg dispatch run [] = continues run
collect ceg dispatch run (id ∷ ids) =
    and_then (accept ceg run id (dispatch id)) (λ run'. collect ceg dispatch run' ids)

abbrev pub is_blocked : Dispatched → Bool
is_blocked blocks = true
is_blocked _ = false

-- The loop over the channel, to its end: the channel is closed when all the goroutines have ended.
unfoldable pub drain : Ceg → (String → Dispatched) → Run → (claimed arrival : List String) → Outcome
drain ceg dispatch run ids arrival =
    and_then (collect ceg dispatch run arrival) (λ over.
      if any (λ id. is_blocked (dispatch id)) ids then hangs over.engine else continues over)

-- The largest deadline of the nodes of a wave.
unfoldable pub wave_deadline : Ceg → (String → ℕ) → ℕ → List String → ℕ
wave_deadline ceg duration longest [] = longest
wave_deadline ceg duration longest (id ∷ wave) =
    wave_deadline ceg duration
      (elim (lookup id ceg.node_map) [
        | none ↦ longest
        | some node ↦
            if str_eq node.scheduling.deadline ""
            then longest
            else let d = duration node.scheduling.deadline in if ltb longest d then d else longest
      ])
      wave

-- The end of a wave: any error of the wait terminates what is left of the wave.
unfoldable pub settled : Run → List String → Option (Engine × Option WaitError) → Outcome
settled run wave none = hangs run.engine
settled run wave (some (e, error)) = continues (record {
  engine = elim error [ none ↦ e | some _ ↦ terminate_nodes e wave ];
  metrics = record run.metrics { waves_completed = run.metrics.waves_completed + 1 };
})

abbrev pub recomputed : Ceg → Run → Run
recomputed ceg run = record run { engine = recompute ceg run.engine }

module _ (ceg : Ceg) (env : Env) where
  -- A wave whose ready nodes are claimed: dispatch, collect, wait. With none claimed: recompute.
  unfoldable pub run_claimed : ℕ → ℕ → List String → Engine × Claims → Run → Outcome
  run_claimed layer index wave (e, claim_failed id x) run = aborted e id x
  run_claimed layer index wave (e, claimed []) run =
      continues (recomputed ceg (record run { engine = e }))
  run_claimed layer index wave (e, claimed (id ∷ ids)) run =
      and_then
        (drain ceg (env.dispatch layer index) (record run { engine = e }) (id ∷ ids)
          (env.arrival layer index (id ∷ ids)))
        (λ over. settled over wave (
          wait_wave (env.signals layer index) (wave_deadline ceg env.duration 0 wave) over.engine
            wave))

  -- The body of the loop over the waves of a layer.
  unfoldable pub run_wave : ℕ → ℕ → Run → List String → Outcome
  run_wave layer index run wave = run_claimed layer index wave (claim run.engine wave) run

  unfoldable pub run_waves : ℕ → ℕ → Run → List (List String) → Outcome
  run_waves layer index run [] = continues run
  run_waves layer index run (wave ∷ waves) =
      and_then (run_wave layer index run wave) (λ run'. run_waves layer (index + 1) run' waves)

  -- After the waves of a layer, and for a layer with none: recompute.
  unfoldable pub run_layers : ℕ → Run → List (List (List String)) → Outcome
  run_layers layer run [] = continues run
  run_layers layer run (waves ∷ layers) =
      and_then (run_waves layer 0 run waves)
        (λ run'. run_layers (layer + 1) (recomputed ceg run') layers)

  unfoldable pub run_loop : List (List (List String)) → Engine → Outcome
  run_loop waves e =
      and_then (run_layers 0 (record { engine = e; metrics = no_metrics }) waves)
        (λ run. continues (recomputed ceg run))
