-- ===== src/Policy.antt =====
-- runtime/policy: the engine (engine.go), its rules (rules.go) and the decision graph
-- (decision_graph.go). Of a request the model has the fields that the rules read and the policy graph;
-- a tool definition is what the rules read of it, whether it requires a session. The path argument is
-- there if it is a text. The expansion of a path by the Go library and its two tests on texts are
-- parameters. The time of a verdict, which no rule sets, is left out.
pub mod Order
pub mod Stages
use Prim.Native.String.{◌++◌ as text_append}
use ai_workstation_core.Base.{
  String, List, [], ◌∷◌, ◌++◌, Option, none, some, ℕ, zero, suc, Bool, true, false, ◌&&◌, ◌||◌, not,
  if◌then◌else◌, ltb, str_eq, length, any,
}

pub data ContextStatus : Type 0 where
  pending success error denied : ContextStatus

pub data Decision : Type 0 where
  allow deny : Decision

abbrev pub is_deny : Decision → Bool
is_deny allow = false
is_deny deny = true

pub record PolicyDecision : Type 0 where
  pub rule_id : String
  pub decision : Decision
  pub reason : String
  pub stage : String
  pub priority : ℕ

pub record PolicyVerdict : Type 0 where
  pub decision : Decision
  pub reason : String
  pub rule_id : String
  pub rule_chain : List PolicyDecision

pub record RequestContext : Type 0 where
  pub request_id : String
  pub session_id : String
  pub project_id : String
  pub tool_id : String
  pub path : Option String
  pub status : ContextStatus
  pub policy_graph : List PolicyDecision

pub record ToolDef : Type 0 where
  pub require_session : Bool

pub record PolicyRule : Type 0 where
  pub id : String
  pub name : String
  pub stage : String
  pub priority : ℕ
  pub evaluate : RequestContext → Option ToolDef → PolicyVerdict

-- The inner loop of `NewPolicyEngine` for the rule at `i`: the rule that is there in the end, and
-- those after it.
unfoldable pub exchange : PolicyRule → List PolicyRule → PolicyRule × List PolicyRule
exchange x [] = (x, [])
exchange x (y ∷ rules) =
    let swapped = exchange y rules in
    let stayed = exchange x rules in
    if ltb y.priority x.priority then (swapped.0, x ∷ swapped.1) else (stayed.0, y ∷ stayed.1)

-- The outer loop, on fuel.
unfoldable pub exchange_all : ℕ → List PolicyRule → List PolicyRule
exchange_all zero rules = rules
exchange_all (suc fuel) [] = []
exchange_all (suc fuel) (x ∷ rules) = let r = exchange x rules in r.0 ∷ exchange_all fuel r.1

-- The rules of `NewPolicyEngine`.
unfoldable pub new_policy_engine : List PolicyRule → List PolicyRule
new_policy_engine rules = exchange_all (length rules) rules

abbrev pub decision_of : String → PolicyRule → PolicyVerdict → PolicyDecision
decision_of stage rule v = record {
  rule_id = rule.id;
  decision = v.decision;
  reason = v.reason;
  stage = stage;
  priority = rule.priority;
}

abbrev pub log_decision : RequestContext → PolicyDecision → RequestContext
log_decision ctx d = record ctx { policy_graph = ctx.policy_graph ++ d ∷ [] }

-- The loop of `EvaluateStage`: the verdict and the context after it.
unfoldable pub evaluate_rules :
    String
    → Option ToolDef
    → List PolicyRule
    → RequestContext
    → List PolicyDecision
    → RequestContext × PolicyVerdict
evaluate_rules stage tool [] ctx chain = (
  ctx,
  record {
    decision = allow;
    reason = text_append "no policies deny at stage " stage;
    rule_id = "default-allow";
    rule_chain = chain;
  },
)
evaluate_rules stage tool (rule ∷ rules) ctx chain =
    let v = rule.evaluate ctx tool in
    let d = decision_of stage rule v in
    let skipped = evaluate_rules stage tool rules ctx chain in
    let later = evaluate_rules stage tool rules (log_decision ctx d) (chain ++ d ∷ []) in
    if not (str_eq rule.stage stage)
    then skipped
    else if is_deny v.decision
    then (
      log_decision ctx d,
      record {
        decision = deny;
        reason = v.reason;
        rule_id = rule.id;
        rule_chain = chain ++ d ∷ [];
      },
    )
    else later

-- `EvaluateStage`
unfoldable pub evaluate_stage :
    List PolicyRule → String → RequestContext → Option ToolDef → RequestContext × PolicyVerdict
evaluate_stage rules stage ctx tool = evaluate_rules stage tool rules ctx []

-- `NewDecisionGraph`, `Allowed` and `DeniedBy`.
pub record DecisionGraph : Type 0 where
  pub graph : List PolicyDecision
  pub final_verdict : Decision

abbrev pub new_decision_graph : PolicyVerdict → DecisionGraph
new_decision_graph v = record { graph = v.rule_chain; final_verdict = v.decision }

abbrev pub allowed : DecisionGraph → Bool
allowed g = not (is_deny g.final_verdict)

unfoldable pub first_denial : List PolicyDecision → String
first_denial [] = ""
first_denial (d ∷ graph) =
    let rest = first_denial graph in if is_deny d.decision then d.rule_id else rest

unfoldable pub denied_by : DecisionGraph → String
denied_by g = first_denial g.graph

abbrev pub verdict : Decision → String → PolicyVerdict
verdict d reason = record { decision = d; reason = reason; rule_id = ""; rule_chain = [] }

unfoldable pub rule_mandatory_fields : RequestContext → Option ToolDef → PolicyVerdict
rule_mandatory_fields ctx tool =
    if str_eq ctx.request_id "" || (str_eq ctx.session_id "" || str_eq ctx.project_id "")
    then verdict deny "missing mandatory fields"
    else verdict allow ""

unfoldable pub rule_tool_exists : RequestContext → Option ToolDef → PolicyVerdict
rule_tool_exists ctx none =
    if not (str_eq ctx.tool_id "")
    then verdict deny (text_append "tool not in registry: " ctx.tool_id)
    else verdict allow ""
rule_tool_exists ctx (some tool) = verdict allow ""

unfoldable pub rule_session_gate : RequestContext → Option ToolDef → PolicyVerdict
rule_session_gate ctx none = verdict allow ""
rule_session_gate ctx (some tool) =
    if tool.require_session && (str_eq ctx.session_id "" || str_eq ctx.project_id "")
    then verdict deny "tool requires valid session"
    else verdict allow ""

unfoldable pub rule_timeout : RequestContext → Option ToolDef → PolicyVerdict
rule_timeout ctx tool = verdict allow "timeout boundary: 30000ms"

abbrev pub is_error : ContextStatus → Bool
is_error error = true
is_error _ = false

unfoldable pub rule_error_isolation : RequestContext → Option ToolDef → PolicyVerdict
rule_error_isolation ctx tool =
    if is_error ctx.status
    then verdict deny "execution error contained — cascade prevented"
    else verdict allow ""

abbrev pub rule_of :
    String → String → String → ℕ → (RequestContext → Option ToolDef → PolicyVerdict) → PolicyRule
rule_of id name stage priority evaluate = record {
  id = id;
  name = name;
  stage = stage;
  priority = priority;
  evaluate = evaluate;
}

module _ (expand : String → String) (has_prefix has_part : String → String → Bool) where
  abbrev pub is_secret : String → Bool
  is_secret path =
      any (λ prefix. has_prefix (expand path) prefix) ("/etc/" ∷ "/proc/" ∷ "/sys/" ∷ [])
      || has_part (expand path) "/.ai/config/secrets"

  unfoldable pub rule_path_deny : RequestContext → Option ToolDef → PolicyVerdict
  rule_path_deny ctx tool = elim ctx.path [
    | none ↦ verdict allow ""
    | some path ↦
        if str_eq path ""
        then verdict allow ""
        else if is_secret path
        then verdict deny (text_append "access denied: " path)
        else verdict allow ""
  ]

  unfoldable pub default_rules : List PolicyRule
  default_rules =
      rule_of "POL-001" "mandatory-context-fields" "pre_validation" 10 rule_mandatory_fields
      ∷ rule_of "POL-002" "tool-registry-existence" "capability_routing" 20 rule_tool_exists
      ∷ rule_of "POL-003" "session-gate" "session_guard" 30 rule_session_gate
      ∷ rule_of "POL-004" "path-access-control" "pre_execution" 40 rule_path_deny
      ∷ rule_of "POL-005" "execution-timeout" "execution" 50 rule_timeout
      ∷ rule_of "POL-006" "error-isolation" "post_validation" 60 rule_error_isolation
      ∷ []
