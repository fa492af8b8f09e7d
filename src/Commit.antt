-- ===== src/Commit.antt =====
-- mek/internal/commit/engine.go: the only writer of node states. The event channel (capacity 1024)
-- is the list of the events that wait in it, oldest first.
pub mod Transitions
pub mod Laws
pub mod Histories
use ai_workstation_core.Base.{
  String, List, [], ◌∷◌, ◌++◌, Option, none, some, ℕ, Bool, true, false, if◌then◌else◌, ltb, length,
  any,
}
use ai_workstation_core.Base.Assoc.{Assoc, insert}
use ai_workstation_core.Types.Status.{
  NodeStatus, blocked, ready, running, success, failure, skipped, terminated, status_eq,
  is_terminal,
}
use ai_workstation_core.Types.StatusMap.{
  Value, NodeState, ExecutionResult, StatusMap, get_state, set_state, init,
}
use ai_workstation_core.Types.StatusMap

pub record CommitEvent : Type 0 where
  pub node_id : String
  pub new_status : NodeStatus
  pub outputs : Option (Assoc Value)
  pub artifacts : Option (List String)

pub record Engine : Type 0 where
  pub sm : StatusMap
  pub events : List CommitEvent

-- The two errors of `Commit`, with what their messages print.
pub data CommitError : Type 0 where
  double_commit invalid_transition : (node_id : String) (from to : NodeStatus) → CommitError

abbrev pub event_capacity : ℕ
event_capacity = 1024

-- `New`
unfoldable pub new : StatusMap → Engine
new sm = record { sm = sm; events = [] }

abbrev successors : NodeStatus → List NodeStatus
successors blocked = ready ∷ skipped ∷ terminated ∷ []
successors ready = running ∷ terminated ∷ []
successors running = success ∷ failure ∷ terminated ∷ []
successors _ = []

unfoldable pub is_valid_transition : NodeStatus → NodeStatus → Bool
is_valid_transition from to = any (λ allowed. status_eq to allowed) (successors from)

abbrev pub event_of : String → NodeStatus → Option ExecutionResult → CommitEvent
event_of id status none = record {
  node_id = id;
  new_status = status;
  outputs = none;
  artifacts = none;
}
event_of id status (some r) = record {
  node_id = id;
  new_status = status;
  outputs = r.outputs;
  artifacts = r.artifacts;
}

-- The `select` sends if the buffer has room, and drops the event otherwise.
unfoldable pub publish : Engine → String → NodeStatus → Option ExecutionResult → Engine
publish e id status result =
    if ltb (length e.events) event_capacity
    then record e { events = e.events ++ event_of id status result ∷ [] }
    else e

abbrev or_else {ℓ} : {A : Type ℓ} → Option A → Option A → Option A
or_else (some a) old = some a
or_else none old = old

-- The state of a node that is written for the first time.
unfoldable pub first_state : NodeStatus → Option ExecutionResult → NodeState
first_state status none = record { status = status; outputs = some []; artifacts = none }
first_state status (some r) = record {
  status = status;
  outputs = r.outputs;
  artifacts = r.artifacts;
}

-- The state after an accepted transition: nil outputs and artifacts leave the old ones.
unfoldable pub next_state : NodeState → NodeStatus → Option ExecutionResult → NodeState
next_state s status none = record s { status = status }
next_state s status (some r) = record {
  status = status;
  outputs = or_else r.outputs s.outputs;
  artifacts = or_else r.artifacts s.artifacts;
}

unfoldable pub commit :
    Engine → String → NodeStatus → Option ExecutionResult → Engine × Option CommitError
unfolding get_state set_state
commit e id status result = elim (get_state e.sm id) [
  | none ↦ (
    publish (record e { sm = set_state e.sm id (first_state status result) }) id status result,
    none,
  )
  | some s ↦
      if is_terminal s.status
      then (e, if status_eq s.status status then none else some (double_commit id s.status status))
      else if is_valid_transition s.status status
      then (
        publish (record e { sm = set_state e.sm id (next_state s status result) }) id status result,
        none,
      )
      else (e, some (invalid_transition id s.status status))
]
