-- ===== src/Dispatcher.antt =====
-- mek/internal/dispatcher/dispatcher.go. The registered adapters are functions that the dispatcher is
-- given; the milliseconds since the start are an argument. Of an adapter's configuration the model
-- holds the fields that `buildContext` reads.
pub mod Laws
use Prim.Native.String.{len, slice, ◌++◌}
use ai_workstation_core.Base.{
  String, List, [], ◌∷◌, Option, none, some, ℕ, Bool, true, false, not, ◌&&◌, if◌then◌else◌, ltb,
  str_eq,
}
use ai_workstation_core.Base.Assoc.{Assoc, lookup, insert}
use ai_workstation_core.Types.Status.{success, failure, terminated}
use ai_workstation_core.Types.StatusMap.{Value, text, ExecutionResult}
use ai_workstation_core.Types.Rir.{UnitType, gate, agent, GateBranch, GateConfig}
use ai_workstation_core.Types.Graph.{CegNode, Ceg}

pub record AdapterSettings : Type 0 where
  pub filesystem_access : String
  pub network_access : String
  pub timeout_ms : ℕ

pub record AdapterConfig : Type 0 where
  pub agent_adapters : Assoc AdapterSettings
  pub tool_adapters : Assoc AdapterSettings

pub record ExecutionContext : Type 0 where
  pub node_id : String
  pub filesystem_scope : String
  pub network_scope : String
  pub timeout_ms : ℕ

-- What the `Execute` of an adapter answers: a result, an error, or neither.
pub data Answer : Type 0 where
  result : ExecutionResult → Answer
  problem : String → Answer
  nothing : Answer

abbrev pub Adapter : Type 0
Adapter = ExecutionContext → Answer

pub record Dispatcher : Type 0 where
  pub ceg : Ceg
  pub config : AdapterConfig
  pub adapters : Assoc Adapter

pub data DispatchError : Type 0 where
  node_not_found no_gate_configuration : (node_id : String) → DispatchError
  no_adapter : (contract node_id : String) (type : UnitType) → DispatchError

-- `panicked`: the dispatcher writes to a result that is nil.
pub data Dispatch : Type 0 where
  answered : ExecutionResult → Dispatch
  refused : DispatchError → Dispatch
  panicked : Dispatch

unfoldable pub new_dispatcher : Ceg → AdapterConfig → Dispatcher
new_dispatcher ceg config = record { ceg = ceg; config = config; adapters = [] }

unfoldable pub register : Dispatcher → String → Adapter → Dispatcher
register d name adapter = record d { adapters = insert name adapter d.adapters }

abbrev pub is_eligible : String → Bool
is_eligible condition =
    not (str_eq condition "")
    && ltb (len "conditional:") (len condition)
    && not (str_eq (slice condition 0 12) "conditional:")

-- The first branch whose condition is eligible, or the default.
unfoldable pub select_branch : String → List GateBranch → GateBranch
select_branch default [] = record { condition = "default"; target = default }
select_branch default (b ∷ branches) =
    let rest = select_branch default branches in if is_eligible b.condition then b else rest

unfoldable pub evaluate_predicate : GateConfig → GateBranch
evaluate_predicate config = select_branch config.default config.branches

abbrev pub escalation : ExecutionResult
escalation = record {
  status = terminated;
  outputs = none;
  artifacts = none;
  escalation = true;
  selected_branch = "";
  metrics = record { duration_ms = 0; tokens_used = none };
}

abbrev pub succeeds : Option (Assoc Value) → String → ℕ → ExecutionResult
succeeds outputs branch elapsed = record {
  status = success;
  outputs = outputs;
  artifacts = none;
  escalation = false;
  selected_branch = branch;
  metrics = record { duration_ms = elapsed; tokens_used = none };
}

abbrev pub fails : String → ℕ → ExecutionResult
fails message elapsed = record (succeeds (some (("error", text message) ∷ [])) "" elapsed) {
  status = failure;
}

unfoldable pub dispatch_gate : CegNode → Dispatch
dispatch_gate node = elim node.gate [
  | none ↦ refused (no_gate_configuration node.id)
  | some config ↦
      if str_eq (evaluate_predicate config).target "ESCALATE"
      then answered escalation
      else answered (succeeds none (evaluate_predicate config).target 0)
]

abbrev pub with_settings : Option AdapterSettings → ExecutionContext → ExecutionContext
with_settings none ctx = ctx
with_settings (some s) ctx = record ctx {
  filesystem_scope = s.filesystem_access;
  network_scope = s.network_access;
  timeout_ms = s.timeout_ms;
}

-- An agent's settings stand over those of a tool.
unfoldable pub build_context : Dispatcher → CegNode → ExecutionContext
build_context d node = with_settings (lookup node.binding.contract d.config.agent_adapters) (
    with_settings (lookup node.binding.contract d.config.tool_adapters)
      (record { node_id = node.id; filesystem_scope = ""; network_scope = ""; timeout_ms = 0 }))

-- The simulated execution of `executeWithTimeout`.
unfoldable pub execute_with_timeout : CegNode → ℕ → Dispatch
execute_with_timeout node elapsed =
    let message = "node " ++ node.id ++ " executed successfully" in
    answered (succeeds (some (("message", text message) ∷ [])) "" elapsed)

unfoldable pub dispatch_builtin : CegNode → ℕ → Dispatch
dispatch_builtin node elapsed =
    if str_eq node.binding.contract "internal/noop"
    then answered (succeeds none "" elapsed)
    else if str_eq node.binding.contract "internal/echo"
    then answered (succeeds (some (("echo", text node.id) ∷ [])) "" elapsed)
    else refused (no_adapter node.binding.contract node.id node.type)

abbrev pub timed : ℕ → Answer → Dispatch
timed elapsed (result r) =
    answered (record r { metrics = record r.metrics { duration_ms = elapsed } })
timed elapsed (problem message) = answered (fails message elapsed)
timed elapsed nothing = panicked

unfoldable pub dispatch_registered : Dispatcher → CegNode → ℕ → Dispatch
dispatch_registered d node elapsed = elim (lookup node.binding.contract d.adapters) [
  | none ↦ dispatch_builtin node elapsed
  | some adapter ↦ timed elapsed (adapter (build_context d node))
]

unfoldable pub dispatch_tool : Dispatcher → CegNode → ℕ → Dispatch
dispatch_tool d node elapsed = elim (lookup node.binding.contract d.config.tool_adapters) [
  | none ↦ dispatch_registered d node elapsed
  | some _ ↦ execute_with_timeout node elapsed
]

abbrev pub is_agent : UnitType → Bool
is_agent agent = true
is_agent _ = false

abbrev pub is_gate : UnitType → Bool
is_gate gate = true
is_gate _ = false

-- `dispatchAdapter`: an agent's adapter, a tool's, a registered one, a built-in one.
unfoldable pub dispatch_adapter : Dispatcher → CegNode → ℕ → Dispatch
dispatch_adapter d node elapsed =
    if is_agent node.type
    then elim (lookup node.binding.contract d.config.agent_adapters) [
      | none ↦ dispatch_tool d node elapsed
      | some _ ↦ execute_with_timeout node elapsed
    ]
    else dispatch_tool d node elapsed

unfoldable pub dispatch : Dispatcher → ℕ → String → Dispatch
dispatch d elapsed id = elim (lookup id d.ceg.node_map) [
  | none ↦ refused (node_not_found id)
  | some node ↦ if is_gate node.type then dispatch_gate node else dispatch_adapter d node elapsed
]
