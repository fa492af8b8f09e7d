-- ===== src/Types/StatusMap.antt =====
-- The status map of mek/pkg/types/types.go: the state of each node by its identifier. A node's state
-- is reached only through the map, so a write through the pointer is an `insert` at its key.
use ai_workstation_core.Base.{String, List, [], Option, none, some, ℕ, Bool, false, all}
use ai_workstation_core.Base.Assoc.{Assoc, lookup, insert}
use ai_workstation_core.Types.Status.{NodeStatus, is_terminal}

-- The dynamic values (`interface{}`) that nodes put out.
pub data Value : Type 0 where
  text : String → Value
  number : ℕ → Value
  flag : Bool → Value

pub record NodeState : Type 0 where
  pub status : NodeStatus
  pub outputs : Option (Assoc Value)
  pub artifacts : Option (List String)

pub record ExecutionMetrics : Type 0 where
  pub duration_ms : ℕ
  pub tokens_used : Option ℕ

pub record ExecutionResult : Type 0 where
  pub status : NodeStatus
  pub outputs : Option (Assoc Value)
  pub artifacts : Option (List String)
  pub escalation : Bool
  pub selected_branch : String
  pub metrics : ExecutionMetrics

abbrev pub StatusMap : Type 0
StatusMap = Assoc NodeState

unfoldable pub get_state : StatusMap → String → Option NodeState
get_state sm id = lookup id sm

unfoldable pub get : StatusMap → String → Option NodeStatus
get sm id = elim (lookup id sm) [ none ↦ none | some s ↦ some s.status ]

-- `Set`: a missing node is left missing.
unfoldable pub set : StatusMap → String → NodeStatus → StatusMap
set sm id status = elim (lookup id sm) [
  | none ↦ sm
  | some s ↦ insert id (record s { status = status }) sm
]

unfoldable pub set_state : StatusMap → String → NodeState → StatusMap
set_state sm id state = insert id state sm

unfoldable pub init : StatusMap → String → NodeStatus → StatusMap
init sm id status = insert id (record { status = status; outputs = some []; artifacts = none }) sm

unfoldable pub all_terminal : StatusMap → List String → Bool
unfolding get
all_terminal sm ids =
    all (λ id. elim (lookup id sm) [ none ↦ false | some s ↦ is_terminal s.status ]) ids
