-- ===== src/Dispatcher/Laws.antt =====
-- What the dispatcher answers, and the commit engine.
use ai_workstation_core.Base.{
  String, none, some, ℕ, true, false, ◌≡◌, ◌⊎◌, inl, inr, refl, arith, subst, str_eq, if_rule,
  option_rule,
}
use ai_workstation_core.Base.Assoc.{lookup}
use ai_workstation_core.Types.Status.{running}
use ai_workstation_core.Types.StatusMap.{ExecutionResult}
use ai_workstation_core.Types.Graph.{CegNode, Ceg}
use ai_workstation_core.Commit.{is_valid_transition}
use ai_workstation_core.Scheduler.Loop.{final_status}
use ai_workstation_core.Dispatcher.{
  Adapter, Dispatcher, Dispatch, answered, refused, panicked, evaluate_predicate, dispatch_gate,
  execute_with_timeout, dispatch_builtin, timed, dispatch_registered, dispatch_tool,
  dispatch_adapter, dispatch, is_gate, is_agent, build_context,
}

-- The commit engine takes the status of a result for a node that runs.
abbrev pub IsCommittable : ExecutionResult → Type 0
IsCommittable r = is_valid_transition running (final_status r) ≡ true

-- The answer of a registered adapter, for a node that is no gate and whose contract has no settings
-- that come first.
abbrev pub FromAdapter : Dispatcher → ℕ → String → Dispatch → Type 0
FromAdapter d elapsed id answer =
    (node : CegNode) × (adapter : Adapter) × (lookup id d.ceg.node_map ≡ some node)
    × (is_gate node.type ≡ false)
    × (lookup node.binding.contract d.config.tool_adapters ≡ none)
    × (lookup node.binding.contract d.adapters ≡ some adapter)
    × (answer ≡ timed elapsed (adapter (build_context d node)))

-- A result that the commit engine takes for a running node, or an error of the dispatcher.
abbrev pub Committable : Dispatch → Type 0
Committable (answered r) = IsCommittable r
Committable (refused x) = Unit
Committable panicked = ⊥

module _ (node : CegNode) (elapsed : ℕ) where
  dispatch_gate-Committable : Committable (dispatch_gate node)
  unfolding dispatch_gate is_valid_transition
  dispatch_gate-Committable =
      option_rule Committable node.gate (λ _. tt)
        (λ config _.
          if_rule Committable (str_eq (evaluate_predicate config).target "ESCALATE") (λ _. refl)
            (λ _. refl))

  dispatch_builtin-Committable : Committable (dispatch_builtin node elapsed)
  unfolding dispatch_builtin is_valid_transition
  dispatch_builtin-Committable =
      if_rule Committable (str_eq node.binding.contract "internal/noop") (λ _. refl)
        (λ _.
          if_rule Committable (str_eq node.binding.contract "internal/echo") (λ _. refl) (λ _. tt))

module _ (d : Dispatcher) (elapsed : ℕ) (id : String) where
  abbrev Accounted : Dispatch → Type 0
  Accounted answer = Committable answer ⊎ FromAdapter d elapsed id answer

  module _ (node : CegNode) (found : lookup id d.ceg.node_map ≡ some node)
      (plain : is_gate node.type ≡ false) where
    dispatch_tool-Accounted : Accounted (dispatch_tool d node elapsed)
    unfolding dispatch_tool dispatch_registered execute_with_timeout is_valid_transition
    dispatch_tool-Accounted =
        option_rule Accounted (lookup node.binding.contract d.config.tool_adapters)
          (λ no_tool.
            option_rule Accounted (lookup node.binding.contract d.adapters)
              (λ _. inl (dispatch_builtin-Committable node elapsed))
              (λ adapter registered. inr (node, adapter, found, plain, no_tool, registered, refl)))
          (λ _ _. inl refl)

    dispatch_adapter-Accounted : Accounted (dispatch_adapter d node elapsed)
    unfolding dispatch_adapter execute_with_timeout is_valid_transition
    dispatch_adapter-Accounted =
        if_rule Accounted (is_agent node.type)
          (λ _.
            option_rule Accounted (lookup node.binding.contract d.config.agent_adapters)
              (λ _. dispatch_tool-Accounted) (λ _ _. inl refl))
          (λ _. dispatch_tool-Accounted)

-- What a dispatch answers is an error of the dispatcher, or a result whose status the commit engine
-- takes for a running node, or what a registered adapter answered in the node's context: its own
-- result with the time set, a failure with the text of its error, or a panic where it gave neither.
-- In this last case the node is in the graph, is no gate, and its contract names that adapter and no
-- tool of the configuration.
pub dispatch-accounted :
    (d : Dispatcher) (elapsed : ℕ) (id : String)
    → Committable (dispatch d elapsed id) ⊎ FromAdapter d elapsed id (dispatch d elapsed id)
unfolding dispatch
dispatch-accounted d elapsed id =
    option_rule (Accounted d elapsed id) (lookup id d.ceg.node_map) (λ _. inl tt)
      (λ node found.
        if_rule (Accounted d elapsed id) (is_gate node.type)
          (λ _. inl (dispatch_gate-Committable node elapsed))
          (dispatch_adapter-Accounted d elapsed id node found))

-- Two dispatchers on the same graph give the same answer for a gate of the graph, whatever their
-- adapters, their configurations and the time that has passed.
pub dispatch-gate :
    (c d : Dispatcher) (s t : ℕ) (id : String) (node : CegNode)
    → c.ceg ≡ d.ceg
    → lookup id c.ceg.node_map ≡ some node
    → is_gate node.type ≡ true
    → dispatch c s id ≡ dispatch d t id
unfolding dispatch
dispatch-gate c d s t id node same found gate =
    let found' = subst (λ (g : Ceg). lookup id g.node_map ≡ some node) same found in ground arith
