-- ===== src/Scheduler/Ends/Escalation.antt =====
-- An escalation (M-013) and the nodes of the whole graph.
use ai_workstation_core.Base.{
  String, List, [], ◌∷◌, Option, none, some, ℕ, ◌+◌, true, ◌≡◌, refl, if_rule, subst, any,
}
use ai_workstation_core.Types.StatusMap.{all_terminal}
use ai_workstation_core.Types.Graph.{Ceg}
use ai_workstation_core.Commit.{Engine, commit}
use ai_workstation_core.Commit.Histories.{Writes, Writes-trans, Writes-commit}
use ai_workstation_core.Scheduler.Steps.{
  Claims, claimed, claim_failed, claim, terminate_all, WaitError,
}
use ai_workstation_core.Scheduler.Steps.Writes.{claim-Writes, recompute-Writes}
use ai_workstation_core.Scheduler.Loop.{
  Run, Dispatched, returned, failed, nothing, panics, blocks, is_blocked, drain, panicked, Outcome,
  continues, escalated, aborted, hangs, Env, final_status, accept, and_then, collect, settled,
  recomputed, run_claimed, run_wave, run_waves, run_layers, run_loop,
}
use ai_workstation_core.Scheduler.Loop.Writes.{
  engine_of, accept-Writes, collect-Writes, drain-Writes, run_wave-Writes, run_waves-Writes,
  run_layers-Writes,
}
use ai_workstation_core.Scheduler.Ends.{all_known, all_known-Writes, terminate_nodes-all_terminal}

module _ (ceg : Ceg) where
  -- An escalated outcome comes from terminating the whole graph, in an engine reached from `e`.
  abbrev Origin : Engine → Outcome → Type 0
  Origin e (escalated run) =
      (f : Engine) × Writes e f
      × (run.engine ≡ terminate_all ceg f)
      × (run.metrics.escalation_requested ≡ true)
  Origin e _ = Unit

  Origin-later : {e f : Engine} (o : Outcome) → Writes e f → Origin f o → Origin e o
  Origin-later (escalated run) w (g, w', stopped, asked) = (g, Writes-trans w w', stopped, asked)
  Origin-later _ w h = h

  and_then-Origin :
      (e : Engine) (o : Outcome) (k : Run → Outcome)
      → Writes e (engine_of o)
      → Origin e o
      → ((run : Run) → Origin run.engine (k run))
      → Origin e (and_then o k)
  and_then-Origin e (continues run) k w h next = Origin-later (k run) w (next run)
  and_then-Origin e (escalated run) k w h next = h
  and_then-Origin e (aborted f id x) k w h next = tt
  and_then-Origin e (hangs f) k w h next = tt
  and_then-Origin e (panicked f) k w h next = tt

  accept-Origin :
      (run : Run) (id : String) (d : Dispatched) → Origin run.engine (accept ceg run id d)
  unfolding accept
  accept-Origin run id blocks = tt
  accept-Origin run id nothing = tt
  accept-Origin run id panics = tt
  accept-Origin run id (failed message) = tt
  accept-Origin run id (returned r) =
      if_rule (Origin run.engine) r.escalation
        (λ _. (
          (commit run.engine id (final_status r) (some r)).0,
          Writes-commit run.engine id (final_status r) (some r),
          refl,
          refl,
        ))
        (λ _. tt)

  collect-Origin :
      (dispatch : String → Dispatched) (run : Run) (ids : List String)
      → Origin run.engine (collect ceg dispatch run ids)
  unfolding collect
  collect-Origin dispatch run [] = tt
  collect-Origin dispatch run (id ∷ ids) =
      and_then-Origin run.engine (accept ceg run id (dispatch id)) _
        (accept-Writes ceg run id (dispatch id)) (accept-Origin run id (dispatch id))
        (λ run'. collect-Origin dispatch run' ids)

  drain-Origin :
      (dispatch : String → Dispatched) (run : Run) (ids arrival : List String)
      → Origin run.engine (drain ceg dispatch run ids arrival)
  unfolding drain
  drain-Origin dispatch run ids arrival =
      and_then-Origin run.engine (collect ceg dispatch run arrival) _
        (collect-Writes ceg dispatch run arrival) (collect-Origin dispatch run arrival)
        (λ over.
          if_rule (Origin over.engine) (any (λ id. is_blocked (dispatch id)) ids) (λ _. tt)
            (λ _. tt))

  settled-Origin :
      (e : Engine) (run : Run) (wave : List String) (r : Option (Engine × Option WaitError))
      → Origin e (settled run wave r)
  unfolding settled
  settled-Origin e run wave none = tt
  settled-Origin e run wave (some (f, none)) = tt
  settled-Origin e run wave (some (f, some error)) = tt

  module _ (env : Env) where
    run_claimed-Origin :
        (layer index : ℕ) (wave : List String) (c : Engine × Claims) (run : Run)
        → Origin c.0 (run_claimed ceg env layer index wave c run)
    unfolding run_claimed
    run_claimed-Origin layer index wave (e, claim_failed id x) run = tt
    run_claimed-Origin layer index wave (e, claimed []) run = tt
    run_claimed-Origin layer index wave (e, claimed (id ∷ ids)) run =
        let run' = record run { engine = e } in
        let order = env.arrival layer index (id ∷ ids) in
        and_then-Origin e (drain ceg (env.dispatch layer index) run' (id ∷ ids) order) _
          (drain-Writes ceg (env.dispatch layer index) run' (id ∷ ids) order)
          (drain-Origin (env.dispatch layer index) run' (id ∷ ids) order)
          (λ over. settled-Origin over.engine over wave _)

    run_wave-Origin :
        (layer index : ℕ) (run : Run) (wave : List String)
        → Origin run.engine (run_wave ceg env layer index run wave)
    unfolding run_wave
    run_wave-Origin layer index run wave =
        Origin-later _ (claim-Writes run.engine wave)
          (run_claimed-Origin layer index wave (claim run.engine wave) run)

    run_waves-Origin :
        (layer index : ℕ) (run : Run) (waves : List (List String))
        → Origin run.engine (run_waves ceg env layer index run waves)
    unfolding run_waves
    run_waves-Origin layer index run [] = tt
    run_waves-Origin layer index run (wave ∷ waves) =
        and_then-Origin run.engine (run_wave ceg env layer index run wave) _
          (run_wave-Writes ceg env layer index run wave) (run_wave-Origin layer index run wave)
          (λ run'. run_waves-Origin layer (index + 1) run' waves)

    run_layers-Origin :
        (layer : ℕ) (run : Run) (layers : List (List (List String)))
        → Origin run.engine (run_layers ceg env layer run layers)
    unfolding run_layers
    run_layers-Origin layer run [] = tt
    run_layers-Origin layer run (waves ∷ layers) =
        and_then-Origin run.engine (run_waves ceg env layer 0 run waves) _
          (run_waves-Writes ceg env layer 0 run waves) (run_waves-Origin layer 0 run waves)
          (λ run'.
            Origin-later _ (recompute-Writes ceg run'.engine)
              (run_layers-Origin (layer + 1) (recomputed ceg run') layers))

    run_loop-Origin :
        (waves : List (List (List String))) (e : Engine) → Origin e (run_loop ceg env waves e)
    unfolding run_loop
    run_loop-Origin waves e =
        and_then-Origin e (run_layers ceg env 0 _ waves) _ (run_layers-Writes ceg env 0 _ waves)
          (run_layers-Origin 0 _ waves) (λ run. tt)

-- A run that ends by an escalation reports it in its metrics, and leaves every node of the graph in
-- a terminal status, if each was present with a status of the diagram when the loop began.
pub run_loop-escalated :
    (ceg : Ceg) (env : Env) (waves : List (List (List String))) (e : Engine) (run : Run)
    → all_known e.sm ceg.order ≡ true
    → run_loop ceg env waves e ≡ escalated run
    → (all_terminal run.engine.sm ceg.order ≡ true) × (run.metrics.escalation_requested ≡ true)
unfolding terminate_all
run_loop-escalated ceg env waves e run known h =
    let (f, w, stopped, asked) = subst (Origin ceg e) h (run_loop-Origin ceg env waves e) in
    (
      rw stopped (terminate_nodes-all_terminal f ceg.order (all_known-Writes w ceg.order known)),
      asked,
    )
