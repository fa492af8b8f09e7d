-- ===== src/Scheduler/Justified/Steps.antt =====
-- The invariant on activations through the single steps of the scheduler.
use mathlib.Core.List.{foldl}
use ai_workstation_core.Base.{
  String, List, [], ◌∷◌, ◌++◌, Option, none, some, ℕ, zero, suc, ◌+◌, ◌&&◌, ◌||◌, Bool, true, false,
  ◌≡◌, inl, inr, refl, arith, if_rule, option_rule, ◌==◌, all, ap,
}
use ai_workstation_core.Base.Assoc.{lookup, lookup_or}
use ai_workstation_core.Base.Sorting.{sort_strings}
use ai_workstation_core.Types.Status.{
  NodeStatus, blocked, ready, running, skipped, terminated, is_terminal,
}
use ai_workstation_core.Types.StatusMap.{get, all_terminal}
use ai_workstation_core.Types.Graph.{CegNode, Ceg}
use ai_workstation_core.Commit.{Engine, commit, new}
use ai_workstation_core.Commit.Histories.{Writes, Writes-commit}
use ai_workstation_core.Commit.Laws.{commit_writes}
use ai_workstation_core.Ceg.Activation.{evaluate_activation, should_skip}
use ai_workstation_core.Scheduler.Justified.{
  is_started, is_launched, Justified, commit-Justified, is_launched-Writes,
}
use ai_workstation_core.Scheduler.Steps.{
  set_status, init_node, init_status_map, recompute_node, recompute, collect_blocked,
  terminate_node, terminate_nodes, terminate_all, Claims, claimed, claim_failed, is_ready,
  claim_from, claim, Signals, WaitError, wait_open, wait_timed, wait_wave,
}

is_ready-is_started : (o : Option NodeStatus) → is_ready o ≡ true → is_started o ≡ true
is_ready-is_started (some ready) h = refl
is_ready-is_started _ h = cc

module _ (ceg : Ceg) where
  -- A status that does not let a node through may be committed at any time.
  idle-Justified :
      (e : Engine) (id : String) (t : NodeStatus)
      → is_started (some t) ≡ false
      → Justified ceg e.sm
      → Justified ceg (set_status e id t).sm
  idle-Justified e id t idle = commit-Justified ceg e id t none (λ node found now started. cc)

  ready-Justified :
      (e : Engine) (id : String) (node : CegNode)
      → lookup id ceg.node_map ≡ some node
      → evaluate_activation node e.sm ≡ true
      → Justified ceg e.sm
      → Justified ceg (set_status e id ready).sm
  ready-Justified e id node found active =
      commit-Justified ceg e id ready none λ other found' now started. inr (ground arith)

  foldl-Justified :
      (step : Engine → String → Engine)
      → ((e : Engine) (id : String) → Justified ceg e.sm → Justified ceg (step e id).sm)
      → (e : Engine) (ids : List String) → Justified ceg e.sm
      → Justified ceg (foldl step e ids).sm
  foldl-Justified step one e [] j = j
  foldl-Justified step one e (id ∷ ids) j = foldl-Justified step one (step e id) ids (one e id j)

  abbrev Keeps : Engine → Type 0
  Keeps e = Justified ceg e.sm

  init_node-Justified : (e : Engine) (id : String) → Justified ceg e.sm → Keeps (init_node ceg e id)
  unfolding init_node
  init_node-Justified e id j =
      option_rule Keeps (lookup id ceg.node_map) (λ _. j)
        λ node found.
          if_rule Keeps (lookup_or id ceg.in_degree 0 == 0)
            (λ _.
              if_rule Keeps (evaluate_activation node e.sm)
                (λ active. ready-Justified e id node found active j)
                (λ _. idle-Justified e id skipped refl j))
            (λ _. idle-Justified e id blocked refl j)

  recompute_node-Justified :
      (e : Engine) (id : String) → Justified ceg e.sm → Keeps (recompute_node ceg e id)
  unfolding recompute_node
  recompute_node-Justified e id j =
      option_rule Keeps (lookup id ceg.node_map) (λ _. j)
        λ node found.
          if_rule Keeps (evaluate_activation node e.sm)
            (λ active. ready-Justified e id node found active j)
            (λ _.
              if_rule Keeps (should_skip node e.sm) (λ _. idle-Justified e id skipped refl j)
                (λ _. j))

  terminate_node-Justified :
      (e : Engine) (id : String) → Justified ceg e.sm → Keeps (terminate_node e id)
  unfolding terminate_node
  terminate_node-Justified e id j =
      option_rule Keeps (get e.sm id) (λ _. j)
        λ s _. if_rule Keeps (is_terminal s) (λ _. j) (λ _. idle-Justified e id terminated refl j)

  -- `InitStatusMap` over an empty map lets through only nodes whose activation holds.
  pub init_status_map-Justified : Justified ceg (init_status_map ceg (new [])).sm
  unfolding init_status_map new get lookup
  init_status_map-Justified =
      foldl-Justified (init_node ceg) init_node-Justified (new []) ceg.order
        (λ id node found started. cc)

  pub recompute-Justified : (e : Engine) → Justified ceg e.sm → Keeps (recompute ceg e)
  unfolding recompute
  recompute-Justified e =
      foldl-Justified (recompute_node ceg) recompute_node-Justified e
        (sort_strings (collect_blocked e.sm))

  pub terminate_nodes-Justified :
      (e : Engine) (ids : List String) → Justified ceg e.sm → Keeps (terminate_nodes e ids)
  unfolding terminate_nodes
  terminate_nodes-Justified = foldl-Justified terminate_node terminate_node-Justified

  pub terminate_all-Justified : (e : Engine) → Justified ceg e.sm → Keeps (terminate_all ceg e)
  unfolding terminate_all
  terminate_all-Justified e = terminate_nodes-Justified e ceg.order

  -- Claimed nodes are launched.
  abbrev pub all_launched : Engine → List String → Bool
  all_launched e ids = all (λ id. is_launched (get e.sm id)) ids

  abbrev pub Claimed : Engine × Claims → Type 0
  Claimed (e, claimed ids) = all_launched e ids ≡ true
  Claimed (e, claim_failed id x) = Unit

  pub all_launched-Writes :
      {e f : Engine}
      → Writes e f
      → (ids : List String) → all_launched e ids ≡ true
      → all_launched f ids ≡ true
  all_launched-Writes w [] h = refl
  all_launched-Writes w (id ∷ ids) h =
      ground (arith, is_launched-Writes id w, all_launched-Writes w ids)

  all_launched-snoc :
      (e : Engine) (id : String) (ids : List String)
      → all_launched e ids ≡ true
      → is_launched (get e.sm id) ≡ true
      → all_launched e (ids ++ id ∷ []) ≡ true
  all_launched-snoc e id [] h k = ground arith
  all_launched-snoc e id (x ∷ ids) h k = ground (arith, all_launched-snoc e id ids)

  running-Justified :
      (e : Engine) (id : String)
      → is_ready (get e.sm id) ≡ true
      → Justified ceg e.sm
      → Keeps (set_status e id running)
  running-Justified e id h =
      commit-Justified ceg e id running none
        λ node found now started. inl (is_ready-is_started (get e.sm id) h)

  -- Claiming keeps the invariant, and what is claimed is launched.
  claim_from-Justified :
      (acc : List String) (e : Engine) (wave : List String)
      → all_launched e acc ≡ true
      → Justified ceg e.sm
      → Keeps (claim_from acc e wave).0 × Claimed (claim_from acc e wave)
  unfolding claim_from
  claim_from-Justified acc e [] h j = (j, h)
  claim_from-Justified acc e (id ∷ wave) h j =
      if_rule (λ (c : Engine × Claims). Keeps c.0 × Claimed c) (is_ready (get e.sm id))
        (λ is_ready.
          option_rule (λ (c : Engine × Claims). Keeps c.0 × Claimed c) (commit e id running none).1
            (λ fine.
              claim_from-Justified (acc ++ id ∷ []) (set_status e id running) wave
                (all_launched-snoc (set_status e id running) id acc
                  (all_launched-Writes (Writes-commit e id running none) acc h)
                  (ap is_launched (commit_writes e id running none fine)))
                (running-Justified e id is_ready j))
            (λ x _. (running-Justified e id is_ready j, tt)))
        (λ _. claim_from-Justified acc e wave h j)

  pub claim-Justified :
      (e : Engine) (wave : List String)
      → Justified ceg e.sm
      → Keeps (claim e wave).0 × Claimed (claim e wave)
  unfolding claim
  claim-Justified e wave = claim_from-Justified [] e wave refl

  -- What a wait leaves behind.
  abbrev pub WaitKeeps : Option (Engine × Option WaitError) → Type 0
  WaitKeeps none = Unit
  WaitKeeps (some (f, error)) = Keeps f

  wait_open-Justified :
      (s : Signals) (left round : ℕ) (e : Engine) (wave : List String)
      → Justified ceg e.sm
      → WaitKeeps (wait_open s left round e wave)
  unfolding wait_open
  wait_open-Justified s zero round e wave j = tt
  wait_open-Justified s (suc left) round e wave j =
      if_rule WaitKeeps (all_terminal e.sm wave) (λ _. j)
        λ _.
          if_rule WaitKeeps (s.is_done round) (λ _. j)
            (λ _. wait_open-Justified s left (round + 1) e wave j)

  wait_timed-Justified :
      (s : Signals) (timeout left round : ℕ) (e : Engine) (wave : List String)
      → Justified ceg e.sm
      → WaitKeeps (wait_timed s timeout left round e wave)
  unfolding wait_timed
  wait_timed-Justified s timeout zero round e wave j = tt
  wait_timed-Justified s timeout (suc left) round e wave j =
      if_rule WaitKeeps (all_terminal e.sm wave) (λ _. j)
        λ _.
          if_rule WaitKeeps (s.is_done round && s.prefers_context round) (λ _. j)
            λ _.
              if_rule WaitKeeps (s.is_done round || s.is_expired timeout round)
                (λ _. terminate_nodes-Justified e wave j)
                (λ _. wait_timed-Justified s timeout left (round + 1) e wave j)

  pub wait_wave-Justified :
      (s : Signals) (deadline : ℕ) (e : Engine) (wave : List String)
      → Justified ceg e.sm
      → WaitKeeps (wait_wave s deadline e wave)
  unfolding wait_wave
  wait_wave-Justified s deadline e wave j =
      if_rule WaitKeeps (deadline == 0) (λ _. wait_open-Justified s _ 0 e wave j)
        (λ _. wait_timed-Justified s deadline _ 0 e wave j)
