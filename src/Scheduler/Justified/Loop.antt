-- ===== src/Scheduler/Justified/Loop.antt =====
-- The invariant on activations through the loop, and through a whole run of the kernel.
use mathlib.Core.Logic.{∥∥₁_elim}
use mathlib.Core.List.{Perm, Permᴰ}
use mathlib.Core.Bool.{Bool-set}
use ai_workstation_core.Base.{
  String, List, [], ◌∷◌, Option, none, some, ℕ, ◌+◌, Bool, true, false, ◌≡◌, ◌⊎◌, inl, inr, refl,
  arith, if_rule, all, any, ap, sym, ◌∙◌,
}
use ai_workstation_core.Types.Status.{
  NodeStatus, skipped, running, success, failure, terminated, is_terminal,
}
use ai_workstation_core.Types.StatusMap.{ExecutionResult, get}
use ai_workstation_core.Types.Graph.{Ceg}
use ai_workstation_core.Commit.{Engine, commit, new}
use ai_workstation_core.Commit.Histories.{Writes-commit, get_frozen}
use ai_workstation_core.Scheduler.Steps.{
  Claims, claimed, claim_failed, claim, WaitError, init_status_map,
}
use ai_workstation_core.Scheduler.Loop.{
  Run, Dispatched, returned, failed, nothing, panics, blocks, is_blocked, drain, panicked, Outcome,
  continues, escalated, aborted, hangs, Env, final_status, accept, and_then, collect, settled,
  recomputed, run_claimed, run_wave, run_waves, run_layers, run_loop,
}
use ai_workstation_core.Scheduler.Loop.Writes.{engine_of, accept-Writes}
use ai_workstation_core.Scheduler.Justified.{is_started, is_launched, Justified, commit-Justified}
use ai_workstation_core.Scheduler.Justified.Steps.{
  all_launched, all_launched-Writes, Claimed, WaitKeeps, init_status_map-Justified,
  recompute-Justified, terminate_nodes-Justified, terminate_all-Justified, claim-Justified,
  wait_wave-Justified,
}

-- `all` does not depend on the order of the list.
all-Permᴰ : (p : String → Bool) {xs ys : List String} → Permᴰ xs ys → all p xs ≡ all p ys
all-Permᴰ p Permᴰ.nil = refl
all-Permᴰ p (Permᴰ.cons e q) = cc (all-Permᴰ p q)
all-Permᴰ p (Permᴰ.swap e f) = ground arith
all-Permᴰ p (Permᴰ.trans q r) = all-Permᴰ p q ∙ all-Permᴰ p r

all-eq_of_perm : (p : String → Bool) {xs ys : List String} → Perm xs ys → all p xs ≡ all p ys
all-eq_of_perm p q = ∥∥₁_elim q (Bool-set _ _) (all-Permᴰ p)

launched_cases :
    (o : Option NodeStatus)
    → is_launched o ≡ true
    → (is_started o ≡ true)
      ⊎ ((s : NodeStatus) × (o ≡ some s) × (is_terminal s ≡ true) × (is_started (some s) ≡ false))
unfolding is_terminal
launched_cases none h = cc
launched_cases (some running) h = inl refl
launched_cases (some skipped) h = inr (skipped, refl, refl, refl)
launched_cases (some terminated) h = inr (terminated, refl, refl, refl)
launched_cases (some success) h = inl refl
launched_cases (some failure) h = inl refl
launched_cases (some _) h = cc

-- The goroutines of a wave end in some order, each once.
abbrev pub Arrives : Env → Type 0
Arrives env = (layer index : ℕ) (ids : List String) → Perm (env.arrival layer index ids) ids

module _ (ceg : Ceg) where
  abbrev Keeps : Outcome → Type 0
  Keeps o = Justified ceg (engine_of o).sm

  and_then-Justified :
      (o : Outcome) (k : Run → Outcome)
      → Keeps o
      → ((run : Run) → Justified ceg run.engine.sm → Keeps (k run))
      → Keeps (and_then o k)
  and_then-Justified (continues run) k j next = next run j
  and_then-Justified (escalated run) k j next = j
  and_then-Justified (aborted f id x) k j next = j
  and_then-Justified (hangs f) k j next = j
  and_then-Justified (panicked f) k j next = j

  -- The same, with nodes that are known to be launched.
  launched_and_then :
      (ids : List String) (o : Outcome) (k : Run → Outcome)
      → Keeps o
      → all_launched ceg (engine_of o) ids ≡ true
      → ((run : Run)
          → all_launched ceg run.engine ids ≡ true
          → Justified ceg run.engine.sm
          → Keeps (k run))
      → Keeps (and_then o k)
  launched_and_then ids (continues run) k j l next = next run l j
  launched_and_then ids (escalated run) k j l next = j
  launched_and_then ids (aborted f id x) k j l next = j
  launched_and_then ids (hangs f) k j l next = j
  launched_and_then ids (panicked f) k j l next = j

  launched-Justified :
      (e : Engine) (id : String) (t : NodeStatus) (r : Option ExecutionResult)
      → is_launched (get e.sm id) ≡ true
      → Justified ceg e.sm
      → Justified ceg (commit e id t r).0.sm
  launched-Justified e id t r l = commit-Justified ceg e id t r λ node found now started.
      inl (elim (launched_cases (get e.sm id) l) [
        | inl was_started ↦ was_started
        | inr (s, is_s, final, idle) ↦
            absurd (still (get_frozen id s (Writes-commit e id t r) is_s final) now idle started)
      ])
    where
      still :
          {s : NodeStatus}
          → get (commit e id t r).0.sm id ≡ some s
          → get (commit e id t r).0.sm id ≡ some t
          → is_started (some s) ≡ false
          → is_started (some t) ≡ true
          → ⊥
      still {s} p q idle started = cc (ap is_started (sym p ∙ q))

  accept-Justified :
      (run : Run) (id : String) (d : Dispatched)
      → is_launched (get run.engine.sm id) ≡ true
      → Justified ceg run.engine.sm
      → Keeps (accept ceg run id d)
  unfolding accept
  accept-Justified run id blocks l j = j
  accept-Justified run id nothing l j = j
  accept-Justified run id panics l j = j
  accept-Justified run id (failed message) l j = launched-Justified run.engine id failure _ l j
  accept-Justified run id (returned r) l j =
      let kept = launched-Justified run.engine id (final_status r) (some r) l j in
      if_rule Keeps r.escalation (λ _. terminate_all-Justified ceg _ kept) (λ _. kept)

  collect-Justified :
      (dispatch : String → Dispatched) (run : Run) (ids : List String)
      → all_launched ceg run.engine ids ≡ true
      → Justified ceg run.engine.sm
      → Keeps (collect ceg dispatch run ids)
  unfolding collect
  collect-Justified dispatch run [] l j = j
  collect-Justified dispatch run (id ∷ ids) l j =
      let o = accept ceg run id (dispatch id) in
      launched_and_then ids o (λ run'. collect ceg dispatch run' ids)
        (accept-Justified run id (dispatch id) (ground arith) j)
        (all_launched-Writes ceg (accept-Writes ceg run id (dispatch id)) ids (ground arith))
        (λ run'. collect-Justified dispatch run' ids)

  drain-Justified :
      (dispatch : String → Dispatched) (run : Run) (ids arrival : List String)
      → all_launched ceg run.engine arrival ≡ true
      → Justified ceg run.engine.sm
      → Keeps (drain ceg dispatch run ids arrival)
  unfolding drain
  drain-Justified dispatch run ids arrival l j =
      and_then-Justified (collect ceg dispatch run arrival) _
        (collect-Justified dispatch run arrival l j)
        (λ over k. if_rule Keeps (any (λ id. is_blocked (dispatch id)) ids) (λ _. k) (λ _. k))

  settled-Justified :
      (run : Run) (wave : List String) (r : Option (Engine × Option WaitError))
      → Justified ceg run.engine.sm
      → WaitKeeps ceg r
      → Keeps (settled run wave r)
  unfolding settled
  settled-Justified run wave none j k = j
  settled-Justified run wave (some (e, none)) j k = k
  settled-Justified run wave (some (e, some error)) j k = terminate_nodes-Justified ceg e wave k

  module _ (env : Env) (arrives : Arrives env) where
    run_claimed-Justified :
        (layer index : ℕ) (wave : List String) (c : Engine × Claims) (run : Run)
        → Justified ceg c.0.sm
        → Claimed ceg c
        → Keeps (run_claimed ceg env layer index wave c run)
    unfolding run_claimed
    run_claimed-Justified layer index wave (e, claim_failed id x) run j l = j
    run_claimed-Justified layer index wave (e, claimed []) run j l = recompute-Justified ceg e j
    run_claimed-Justified layer index wave (e, claimed (id ∷ ids)) run j l =
        and_then-Justified (drain ceg (env.dispatch layer index) _ _ _) _
          (drain-Justified (env.dispatch layer index) (record run { engine = e }) _ _
            (all-eq_of_perm (λ i. is_launched (get e.sm i)) (arrives layer index (id ∷ ids)) ∙ l) j)
          (λ over k.
            settled-Justified over wave _ k
              (wait_wave-Justified ceg (env.signals layer index) _ over.engine wave k))

    run_waves-Justified :
        (layer index : ℕ) (run : Run) (waves : List (List String))
        → Justified ceg run.engine.sm
        → Keeps (run_waves ceg env layer index run waves)
    unfolding run_waves run_wave
    run_waves-Justified layer index run [] j = j
    run_waves-Justified layer index run (wave ∷ waves) j =
        let (kept, launched) = claim-Justified ceg run.engine wave j in
        and_then-Justified (run_wave ceg env layer index run wave) _
          (run_claimed-Justified layer index wave (claim run.engine wave) run kept launched)
          (λ run' k. run_waves-Justified layer (index + 1) run' waves k)

    run_layers-Justified :
        (layer : ℕ) (run : Run) (layers : List (List (List String)))
        → Justified ceg run.engine.sm
        → Keeps (run_layers ceg env layer run layers)
    unfolding run_layers
    run_layers-Justified layer run [] j = j
    run_layers-Justified layer run (waves ∷ layers) j =
        and_then-Justified (run_waves ceg env layer 0 run waves) _
          (run_waves-Justified layer 0 run waves j)
          (λ run' k.
            run_layers-Justified (layer + 1) (recomputed ceg run') layers
              (recompute-Justified ceg run'.engine k))

    -- If the activation of every started node holds when the loop begins, it does when the loop
    -- ends, whatever the nodes answer and however the waits end, if the results of each wave are
    -- those of its claimed nodes, each once, in some order.
    pub run_loop-Justified :
        (waves : List (List (List String))) (e : Engine)
        → Justified ceg e.sm
        → Justified ceg (engine_of (run_loop ceg env waves e)).sm
    unfolding run_loop
    run_loop-Justified waves e j =
        and_then-Justified (run_layers ceg env 0 _ waves) _ (run_layers-Justified 0 _ waves j)
          (λ run. recompute-Justified ceg run.engine)

-- `Run` of mek/internal/runtime/runtime.go, from a fresh engine to the end of the loop.
abbrev pub kernel_run : Ceg → Env → List (List (List String)) → Outcome
kernel_run ceg env waves = run_loop ceg env waves (init_status_map ceg (new []))

-- At the end of a run from an empty status map, however it ends, the activation of every node that
-- was started holds, if the results of each wave are those of its claimed nodes, each once, in
-- some order.
pub kernel_run-Justified :
    (ceg : Ceg) (env : Env) (waves : List (List (List String)))
    → Arrives env
    → Justified ceg (engine_of (kernel_run ceg env waves)).sm
kernel_run-Justified ceg env waves arrives =
    run_loop-Justified ceg env arrives waves _ (init_status_map-Justified ceg)
