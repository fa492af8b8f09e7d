-- ===== src/Scheduler/Ends/Returns.antt =====
-- When the loop returns.
use ai_workstation_core.Base.{
  String, List, [], ◌∷◌, Option, none, some, ℕ, ◌+◌, ◌<◌, ◌≤◌, ◌||◌, ◌&&◌, Bool, true, false, not,
  ◌≡◌, ◌≢◌, ◌⊎◌, inl, inr, refl, arith, if_rule, ltb, str_eq, any, Option-cases,
}
use ai_workstation_core.Base.Assoc.{lookup}
use ai_workstation_core.Types.Graph.{Ceg}
use ai_workstation_core.Commit.{Engine}
use ai_workstation_core.Scheduler.Steps.{
  Signals, Claims, claimed, claim_failed, claim, WaitError, wait_wave,
}
use ai_workstation_core.Scheduler.Loop.{
  Run, Dispatched, returned, failed, nothing, panics, blocks, is_blocked, Outcome, continues,
  escalated, aborted, hangs, panicked, Env, accept, and_then, collect, drain, wave_deadline,
  settled, recomputed, run_claimed, run_wave, run_waves, run_layers, run_loop,
}
use ai_workstation_core.Scheduler.Ends.Waits.{wait_wave-ends}

abbrev pub Returns : Outcome → Type 0
Returns (hangs e) = ⊥
Returns (panicked e) = ⊥
Returns _ = Unit

and_then-Returns :
    (o : Outcome) (k : Run → Outcome)
    → Returns o
    → ((run : Run) → Returns (k run))
    → Returns (and_then o k)
and_then-Returns (continues run) k r next = next run
and_then-Returns (escalated run) k r next = tt
and_then-Returns (aborted e id x) k r next = tt
and_then-Returns (hangs e) k r next = r
and_then-Returns (panicked e) k r next = r

-- A result or an error.
abbrev pub Answers : Dispatched → Type 0
Answers (returned r) = Unit
Answers (failed message) = Unit
Answers _ = ⊥

Answers-is_blocked : (d : Dispatched) → Answers d → is_blocked d ≡ false
Answers-is_blocked (returned r) h = refl
Answers-is_blocked (failed message) h = refl
Answers-is_blocked blocks h = absurd h
Answers-is_blocked nothing h = refl
Answers-is_blocked panics h = refl

-- A context with a timeout is done at some time, and the rounds that are followed last until then.
abbrev pub TimersFire : Signals → Type 0
TimersFire s =
    (timeout : ℕ) → 0 < timeout → (n : ℕ) × (n ≤ s.rounds timeout) × (s.is_expired timeout n ≡ true)

-- The context is done in some round, and the rounds that are followed last until then.
abbrev pub IsCancelled : Signals → Type 0
IsCancelled s = (n : ℕ) × (s.is_done n ≡ true) × ((timeout : ℕ) → n ≤ s.rounds timeout)

module _ (ceg : Ceg) (env : Env) where
  -- The node has a deadline, which has not passed.
  abbrev pub has_time : String → Bool
  has_time id = elim (lookup id ceg.node_map) [
    | none ↦ false
    | some node ↦
        not (str_eq node.scheduling.deadline "") && ltb 0 (env.duration node.scheduling.deadline)
  ]

  -- The context is done during the wait, or some node of the wave has time left.
  abbrev pub WaveEnds : ℕ → ℕ → List String → Type 0
  WaveEnds layer index wave =
      IsCancelled (env.signals layer index)
      ⊎ (any has_time wave ≡ true) × TimersFire (env.signals layer index)

  abbrev pub WavesEnd : ℕ → ℕ → List (List String) → Type 0
  WavesEnd layer index [] = Unit
  WavesEnd layer index (wave ∷ waves) = WaveEnds layer index wave × WavesEnd layer (index + 1) waves

  abbrev pub LayersEnd : ℕ → List (List (List String)) → Type 0
  LayersEnd layer [] = Unit
  LayersEnd layer (waves ∷ layers) = WavesEnd layer 0 waves × LayersEnd (layer + 1) layers

  -- The wave's deadline is positive if that of some node is.
  wave_deadline_positive :
      (wave : List String) (longest : ℕ)
      → (ltb 0 longest || any has_time wave) ≡ true
      → 0 < wave_deadline ceg env.duration longest wave
  unfolding wave_deadline
  wave_deadline_positive [] longest h = ground arith
  wave_deadline_positive (id ∷ wave) longest h =
      wave_deadline_positive wave _ (elim (Option-cases (lookup id ceg.node_map)) [
        | inl missing ↦ ground arith
        | inr (node, found) ↦ ground arith
      ])

  module _ (answers : (layer index : ℕ) (id : String) → Answers (env.dispatch layer index id)) where
    accept-Returns :
        (run : Run) (id : String) (d : Dispatched) → Answers d → Returns (accept ceg run id d)
    unfolding accept
    accept-Returns run id (failed message) h = tt
    accept-Returns run id (returned r) h = if_rule Returns r.escalation (λ _. tt) (λ _. tt)
    accept-Returns run id blocks h = tt
    accept-Returns run id nothing h = h
    accept-Returns run id panics h = h

    collect-Returns :
        (layer index : ℕ) (run : Run) (ids : List String)
        → Returns (collect ceg (env.dispatch layer index) run ids)
    unfolding collect
    collect-Returns layer index run [] = tt
    collect-Returns layer index run (id ∷ ids) =
        let d = env.dispatch layer index id in
        and_then-Returns (accept ceg run id d) _ (accept-Returns run id d (answers layer index id))
          (λ run'. collect-Returns layer index run' ids)

    none_blocked :
        (layer index : ℕ) (ids : List String)
        → any (λ id. is_blocked (env.dispatch layer index id)) ids ≡ false
    none_blocked layer index [] = refl
    none_blocked layer index (id ∷ ids) = ground (
      arith,
      Answers-is_blocked (env.dispatch layer index id) (answers layer index id),
      none_blocked layer index ids,
    )

    drain-Returns :
        (layer index : ℕ) (run : Run) (ids arrival : List String)
        → Returns (drain ceg (env.dispatch layer index) run ids arrival)
    unfolding drain
    drain-Returns layer index run ids arrival =
        and_then-Returns (collect ceg (env.dispatch layer index) run arrival) _
          (collect-Returns layer index run arrival)
          (λ over.
            if_rule Returns (any (λ id. is_blocked (env.dispatch layer index id)) ids)
              (λ stuck. absurd (cc (none_blocked layer index ids))) (λ _. tt))

    settled-Returns :
        (run : Run) (wave : List String) (r : Option (Engine × Option WaitError))
        → r ≢ none
        → Returns (settled run wave r)
    unfolding settled
    settled-Returns run wave none h = h refl
    settled-Returns run wave (some (e, none)) h = tt
    settled-Returns run wave (some (e, some error)) h = tt

    wait-ends :
        (layer index : ℕ) (e : Engine) (wave : List String)
        → WaveEnds layer index wave
        → wait_wave (env.signals layer index) (wave_deadline ceg env.duration 0 wave) e wave ≢ none
    wait-ends layer index e wave (inl (n, fired, followed)) =
        wait_wave-ends (env.signals layer index) e wave _ n (followed _) (inl fired)
    wait-ends layer index e wave (inr (in_time, fires)) =
        let positive = wave_deadline_positive wave 0 (ground arith) in
        let (n, followed, fired) = fires (wave_deadline ceg env.duration 0 wave) positive in
        wait_wave-ends (env.signals layer index) e wave _ n followed (inr (positive, fired))

    run_claimed-Returns :
        (layer index : ℕ) (wave : List String) (c : Engine × Claims) (run : Run)
        → WaveEnds layer index wave
        → Returns (run_claimed ceg env layer index wave c run)
    unfolding run_claimed
    run_claimed-Returns layer index wave (e, claim_failed id x) run ends = tt
    run_claimed-Returns layer index wave (e, claimed []) run ends = tt
    run_claimed-Returns layer index wave (e, claimed (id ∷ ids)) run ends =
        and_then-Returns (drain ceg (env.dispatch layer index) _ _ _) _
          (drain-Returns layer index _ _ _)
          (λ over. settled-Returns over wave _ (wait-ends layer index over.engine wave ends))

    run_waves-Returns :
        (layer index : ℕ) (run : Run) (waves : List (List String))
        → WavesEnd layer index waves
        → Returns (run_waves ceg env layer index run waves)
    unfolding run_waves run_wave
    run_waves-Returns layer index run [] ends = tt
    run_waves-Returns layer index run (wave ∷ waves) ends =
        and_then-Returns (run_wave ceg env layer index run wave) _
          (run_claimed-Returns layer index wave (claim run.engine wave) run ends.0)
          (λ run'. run_waves-Returns layer (index + 1) run' waves ends.1)

    run_layers-Returns :
        (layer : ℕ) (run : Run) (layers : List (List (List String)))
        → LayersEnd layer layers
        → Returns (run_layers ceg env layer run layers)
    unfolding run_layers
    run_layers-Returns layer run [] ends = tt
    run_layers-Returns layer run (waves ∷ layers) ends =
        and_then-Returns (run_waves ceg env layer 0 run waves) _
          (run_waves-Returns layer 0 run waves ends.0)
          (λ run'. run_layers-Returns (layer + 1) (recomputed ceg run') layers ends.1)

    -- The loop returns if every dispatch answers a result or an error and, for every wave, either
    -- the context is done in a round of the wait that is followed, or some node of the wave has a
    -- deadline that has not passed and a context with a timeout is done in a round that is followed.
    pub run_loop-Returns :
        (waves : List (List (List String))) (e : Engine)
        → LayersEnd 0 waves
        → Returns (run_loop ceg env waves e)
    unfolding run_loop
    run_loop-Returns waves e ends =
        and_then-Returns (run_layers ceg env 0 _ waves) _ (run_layers-Returns 0 _ waves ends)
          (λ run. tt)
