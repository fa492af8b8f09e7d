-- ===== src/Scheduler/Loop/Writes.antt =====
-- The loop as a sequence of commits, on every way out.
use ai_workstation_core.Base.{String, List, [], ◌∷◌, Option, none, some, ℕ, ◌+◌, if_rule, any}
use ai_workstation_core.Types.Status.{failure}
use ai_workstation_core.Types.Graph.{Ceg}
use ai_workstation_core.Commit.{Engine}
use ai_workstation_core.Commit.Histories.{Writes, done, Writes-trans, Writes-commit}
use ai_workstation_core.Scheduler.Steps.{WaitError, Claims, claimed, claim_failed, claim}
use ai_workstation_core.Scheduler.Steps.Writes.{
  claim-Writes, recompute-Writes, terminate_nodes-Writes, terminate_all-Writes, WaitWrites,
  wait_wave-Writes,
}
use ai_workstation_core.Scheduler.Loop.{
  Run, Dispatched, returned, failed, nothing, panics, blocks, is_blocked, drain, panicked, Outcome,
  continues, escalated, aborted, hangs, Env, final_status, accept, and_then, collect, settled,
  recomputed, run_claimed, run_wave, run_waves, run_layers, run_loop,
}

-- The engine in which an outcome leaves the program.
abbrev pub engine_of : Outcome → Engine
engine_of (continues run) = run.engine
engine_of (escalated run) = run.engine
engine_of (aborted e id x) = e
engine_of (hangs e) = e
engine_of (panicked e) = e

pub and_then-Writes :
    (e : Engine) (o : Outcome) (k : Run → Outcome)
    → Writes e (engine_of o)
    → ((run : Run) → Writes run.engine (engine_of (k run)))
    → Writes e (engine_of (and_then o k))
and_then-Writes e (continues run) k w next = Writes-trans w (next run)
and_then-Writes e (escalated run) k w next = w
and_then-Writes e (aborted f id x) k w next = w
and_then-Writes e (hangs f) k w next = w
and_then-Writes e (panicked f) k w next = w

module _ (ceg : Ceg) where
  pub accept-Writes :
      (run : Run) (id : String) (d : Dispatched)
      → Writes run.engine (engine_of (accept ceg run id d))
  unfolding accept
  accept-Writes run id blocks = done
  accept-Writes run id nothing = done
  accept-Writes run id panics = done
  accept-Writes run id (failed message) = Writes-commit run.engine id failure _
  accept-Writes run id (returned r) =
      if_rule (λ o. Writes run.engine (engine_of o)) r.escalation
        (λ _.
          Writes-trans (Writes-commit run.engine id (final_status r) (some r))
            (terminate_all-Writes ceg _))
        (λ _. Writes-commit run.engine id (final_status r) (some r))

  pub collect-Writes :
      (dispatch : String → Dispatched) (run : Run) (ids : List String)
      → Writes run.engine (engine_of (collect ceg dispatch run ids))
  unfolding collect
  collect-Writes dispatch run [] = done
  collect-Writes dispatch run (id ∷ ids) =
      and_then-Writes run.engine (accept ceg run id (dispatch id)) _
        (accept-Writes run id (dispatch id)) (λ run'. collect-Writes dispatch run' ids)

  pub drain-Writes :
      (dispatch : String → Dispatched) (run : Run) (ids arrival : List String)
      → Writes run.engine (engine_of (drain ceg dispatch run ids arrival))
  unfolding drain
  drain-Writes dispatch run ids arrival =
      and_then-Writes run.engine (collect ceg dispatch run arrival) _
        (collect-Writes dispatch run arrival)
        (λ over.
          if_rule (λ o. Writes over.engine (engine_of o)) (any (λ id. is_blocked (dispatch id)) ids)
            (λ _. done) (λ _. done))

  settled-Writes :
      (run : Run) (wave : List String) (r : Option (Engine × Option WaitError))
      → WaitWrites run.engine r
      → Writes run.engine (engine_of (settled run wave r))
  unfolding settled
  settled-Writes run wave none w = done
  settled-Writes run wave (some (e, none)) w = w
  settled-Writes run wave (some (e, some error)) w = Writes-trans w (terminate_nodes-Writes e wave)

  module _ (env : Env) where
    run_claimed-Writes :
        (layer index : ℕ) (wave : List String) (c : Engine × Claims) (run : Run)
        → Writes run.engine c.0
        → Writes run.engine (engine_of (run_claimed ceg env layer index wave c run))
    unfolding run_claimed
    run_claimed-Writes layer index wave (e, claim_failed id x) run w = w
    run_claimed-Writes layer index wave (e, claimed []) run w =
        Writes-trans w (recompute-Writes ceg e)
    run_claimed-Writes layer index wave (e, claimed (id ∷ ids)) run w = Writes-trans w (
        and_then-Writes e (drain ceg (env.dispatch layer index) _ _ _) _
          (drain-Writes (env.dispatch layer index) (record run { engine = e }) _ _)
          (λ over.
            settled-Writes over wave _
              (wait_wave-Writes (env.signals layer index) _ over.engine wave)))

    pub run_wave-Writes :
        (layer index : ℕ) (run : Run) (wave : List String)
        → Writes run.engine (engine_of (run_wave ceg env layer index run wave))
    unfolding run_wave
    run_wave-Writes layer index run wave =
        run_claimed-Writes layer index wave (claim run.engine wave) run
          (claim-Writes run.engine wave)

    pub run_waves-Writes :
        (layer index : ℕ) (run : Run) (waves : List (List String))
        → Writes run.engine (engine_of (run_waves ceg env layer index run waves))
    unfolding run_waves
    run_waves-Writes layer index run [] = done
    run_waves-Writes layer index run (wave ∷ waves) =
        and_then-Writes run.engine (run_wave ceg env layer index run wave) _
          (run_wave-Writes layer index run wave)
          (λ run'. run_waves-Writes layer (index + 1) run' waves)

    pub run_layers-Writes :
        (layer : ℕ) (run : Run) (layers : List (List (List String)))
        → Writes run.engine (engine_of (run_layers ceg env layer run layers))
    unfolding run_layers
    run_layers-Writes layer run [] = done
    run_layers-Writes layer run (waves ∷ layers) =
        and_then-Writes run.engine (run_waves ceg env layer 0 run waves) _
          (run_waves-Writes layer 0 run waves)
          (λ run'.
            Writes-trans (recompute-Writes ceg run'.engine)
              (run_layers-Writes (layer + 1) (recomputed ceg run') layers))

    -- Whatever the nodes answer, in whatever order, and however the waits end, the engine at the
    -- end of the loop is reached from that at its beginning by commits alone.
    pub run_loop-Writes :
        (waves : List (List (List String))) (e : Engine)
        → Writes e (engine_of (run_loop ceg env waves e))
    unfolding run_loop
    run_loop-Writes waves e =
        and_then-Writes e (run_layers ceg env 0 _ waves) _ (run_layers-Writes 0 _ waves)
          (λ run. recompute-Writes ceg run.engine)
