-- ===== src/Scheduler/Justified.antt =====
-- The invariant on activations: which nodes count as started, and when all of them are justified.
pub mod Steps
pub mod Loop
use ai_workstation_core.Base.{
  String, List, [], ◌∷◌, Option, none, some, Bool, true, false, ◌≡◌, ◌⊎◌, inl, inr, refl, arith,
  str_eq, eq_iff, subst, Bool-cases,
}
use ai_workstation_core.Base.Assoc.{lookup}
use ai_workstation_core.Types.Status.{
  NodeStatus, blocked, ready, running, success, failure, skipped, terminated, is_terminal,
}
use ai_workstation_core.Types.StatusMap.{NodeState, ExecutionResult, StatusMap, get}
use ai_workstation_core.Types.Graph.{CegNode, Ceg}
use ai_workstation_core.Commit.{Engine, commit}
use ai_workstation_core.Commit.Laws.{commit-status, commit-others}
use ai_workstation_core.Commit.Transitions.{◌⟶◌, activate, skip, claim, ◌⟶*◌, here, hop}
use ai_workstation_core.Commit.Histories.{Writes, Writes-commit, Writes-Path*, Path*, absent, along}
use ai_workstation_core.Ceg.Activation.{evaluate_activation}
use ai_workstation_core.Ceg.Activation.Laws.{evaluate_activation-Writes}

-- READY, RUNNING, SUCCESS and FAILURE: the statuses of nodes that were let through.
abbrev pub is_started : Option NodeStatus → Bool
is_started (some ready) = true
is_started (some running) = true
is_started (some success) = true
is_started (some failure) = true
is_started _ = false

-- RUNNING or terminal.
abbrev pub is_launched : Option NodeStatus → Bool
is_launched (some running) = true
is_launched (some success) = true
is_launched (some failure) = true
is_launched (some skipped) = true
is_launched (some terminated) = true
is_launched _ = false

-- Every node of the graph that was let through has its activation satisfied.
abbrev pub Justified : Ceg → StatusMap → Type 0
Justified ceg sm =
    (id : String) (node : CegNode)
    → lookup id ceg.node_map ≡ some node
    → is_started (get sm id) ≡ true
    → evaluate_activation node sm ≡ true

pub Justified-Writes :
    (ceg : Ceg) {e f : Engine}
    → Writes e f
    → ((id : String) (node : CegNode)
        → lookup id ceg.node_map ≡ some node
        → is_started (get f.sm id) ≡ true
        → (is_started (get e.sm id) ≡ true) ⊎ (evaluate_activation node e.sm ≡ true))
    → Justified ceg e.sm
    → Justified ceg f.sm
Justified-Writes ceg w new old id node found started = elim (new id node found started) [
  | inl before ↦ evaluate_activation-Writes node w (old id node found before)
  | inr now ↦ evaluate_activation-Writes node w now
]

-- A commit keeps the invariant if the node was started, or its activation holds, whenever it is
-- started afterwards.
pub commit-Justified :
    (ceg : Ceg) (e : Engine) (id : String) (t : NodeStatus) (r : Option ExecutionResult)
    → ((node : CegNode)
        → lookup id ceg.node_map ≡ some node
        → get (commit e id t r).0.sm id ≡ some t
        → is_started (some t) ≡ true
        → (is_started (get e.sm id) ≡ true) ⊎ (evaluate_activation node e.sm ≡ true))
    → Justified ceg e.sm
    → Justified ceg (commit e id t r).0.sm
commit-Justified ceg e id t r allowed old = Justified-Writes ceg (Writes-commit e id t r) new old
  where
    f : Engine
    f = (commit e id t r).0

    New : String → CegNode → Type 0
    New j node =
        lookup j ceg.node_map ≡ some node
        → is_started (get f.sm j) ≡ true
        → (is_started (get e.sm j) ≡ true) ⊎ (evaluate_activation node e.sm ≡ true)

    own : (node : CegNode) → New id node
    own node found started = elim (commit-status e id t r) [
      | inl same ↦ inl (rw same at started)
      | inr now ↦ allowed node found now (rw now at started)
    ]

    new : (j : String) (node : CegNode) → New j node
    new j node found started = elim (Bool-cases (str_eq id j)) [
      | inr ne ↦ inl (rw (commit-others e id t r j ne) at started)
      | inl q ↦ subst (λ k. New k node) ((eq_iff id j).0 q) (own node) found started
    ]

is_launched-⟶* :
    {s t : NodeStatus} → s ⟶* t → is_launched (some s) ≡ true → is_launched (some t) ≡ true
is_launched-⟶* here h = h
is_launched-⟶* (hop e p) h = is_launched-⟶* p (one e h)
  where
    one : {s t : NodeStatus} → s ⟶ t → is_launched (some s) ≡ true → is_launched (some t) ≡ true
    one activate k = cc
    one skip k = refl
    one claim k = refl
    one _ k = refl

is_launched-Path* :
    {a b : Option NodeStatus} → Path* a b → is_launched a ≡ true → is_launched b ≡ true
is_launched-Path* absent h = cc
is_launched-Path* (along p) h = is_launched-⟶* p h

-- A launched node stays launched.
pub is_launched-Writes :
    {e f : Engine} (id : String)
    → Writes e f
    → is_launched (get e.sm id) ≡ true
    → is_launched (get f.sm id) ≡ true
is_launched-Writes {e} {f} id w h = is_launched-Path* (Writes-Path* id w) h
