-- ===== src/Commit/Transitions.antt =====
-- The state diagram of a node (MEK §2.4), stated apart from the table that the engine tests.
use ai_workstation_core.Base.{ℕ, ◌<◌, Option, none, some, arith}
use ai_workstation_core.Types.Status.{
  NodeStatus, blocked, ready, running, success, failure, skipped, terminated,
}

infix 40 ◌⟶◌ ◌⟶*◌
pub data ◌⟶◌ : NodeStatus → NodeStatus → Type 0 where
  activate : blocked ⟶ ready
  skip : blocked ⟶ skipped
  claim : ready ⟶ running
  succeed : running ⟶ success
  fail : running ⟶ failure
  stop_blocked : blocked ⟶ terminated
  stop_ready : ready ⟶ terminated
  stop_running : running ⟶ terminated

pub data ◌⟶*◌ : NodeStatus → NodeStatus → Type 0 where
  here : {s : NodeStatus} → s ⟶* s
  hop : {s t u : NodeStatus} → s ⟶ t → t ⟶* u → s ⟶* u

pub ruleset edges = (activate, skip, claim, succeed, fail, stop_blocked, stop_ready, stop_running)

-- How far a node has come; every edge goes up.
abbrev pub rank : NodeStatus → ℕ
rank blocked = 0
rank ready = 1
rank running = 2
rank _ = 3

pub ⟶-rank : {s t : NodeStatus} → s ⟶ t → rank s < rank t
⟶-rank activate = omega arith
⟶-rank skip = omega arith
⟶-rank claim = omega arith
⟶-rank succeed = omega arith
⟶-rank fail = omega arith
⟶-rank stop_blocked = omega arith
⟶-rank stop_ready = omega arith
⟶-rank stop_running = omega arith

-- What may happen to the status of a node, or to its absence, in one write.
pub data Moves : Option NodeStatus → Option NodeStatus → Type 0 where
  stays : {o : Option NodeStatus} → Moves o o
  starts : {s : NodeStatus} → Moves none (some s)
  steps : {s t : NodeStatus} → s ⟶ t → Moves (some s) (some t)
