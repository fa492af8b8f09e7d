-- ===== src/Samples.antt =====
-- A small graph and its runs: the inputs at which the theorems of the kernel are applied.
pub mod Runs
pub mod Scheduling
pub mod Records
pub mod Builds
pub mod Control
pub mod Serving
use ai_workstation_core.Base.{
  String, List, [], ◌∷◌, Option, none, some, ℕ, true, false, ◌≡◌, refl, inl, inr,
}
use ai_workstation_core.Base.Assoc.{Assoc, lookup, insert}
use ai_workstation_core.Types.Status.{
  NodeStatus, blocked, ready, running, success, failure, is_terminal, other, skipped, terminated,
}
use ai_workstation_core.Types.StatusMap.{
  NodeState, StatusMap, get, get_state, set_state, all_terminal,
}
use ai_workstation_core.Types.Rir.{UnitType, task, Rir, ExecutableUnit, IsolationBoundary, Edge}
use ai_workstation_core.Types.Graph.{CegNode, Ceg}
use ai_workstation_core.Commit.{
  Engine, CommitError, double_commit, commit, publish, is_valid_transition, new,
}

abbrev pub state : NodeStatus → NodeState
state s = record { status = s; outputs = some []; artifacts = none }

-- A node that runs when all that it requires have succeeded.
abbrev pub unit : String → List String → ExecutableUnit
unit id requires = record {
  id = id;
  type = task;
  binding = record { contract = "internal/noop"; isolation = "" };
  dependencies = requires;
  inputs = [];
  scheduling = record { priority = 0; deadline = "5s" };
  activation = record { condition = "all_success"; requires = requires; optional = [] };
  gate = none;
}

abbrev pub node_at : ℕ → String → List String → CegNode
node_at layer id requires = record {
  id = id;
  type = task;
  activation = record { condition = "all_success"; requires = requires; optional = [] };
  gate = none;
  binding = record { contract = "internal/noop"; isolation = "" };
  scheduling = record { priority = 0; deadline = "5s" };
  predecessors = requires;
  successors = [];
  layer = layer;
}

abbrev pub node : String → List String → CegNode
node = node_at 1

abbrev pub edge : Edge
edge = record { from = "scan"; to = "report"; type = "dependency" }

-- Two units of one isolation region.
abbrev pub rir : Rir
rir = record {
  schema_version = "1.0";
  spec_hash = "h";
  execution_mode = "2";
  max_parallelism = 1;
  units = unit "scan" [] ∷ unit "report" ("scan" ∷ []) ∷ [];
  edges = edge ∷ [];
  isolation_regions = record { id = "r"; units = "scan" ∷ "report" ∷ [] } ∷ [];
}

-- `scan`, and `report`, which requires it.
abbrev pub graph : Ceg
graph = record {
  order = "scan" ∷ "report" ∷ [];
  node_map =
      ("scan", record (node_at 0 "scan" []) { successors = "report" ∷ [] })
      ∷ ("report", node "report" ("scan" ∷ []))
      ∷ [];
  edges = edge ∷ [];
  in_degree = ("scan", 0) ∷ ("report", 1) ∷ [];
  layers = ("scan" ∷ []) ∷ ("report" ∷ []) ∷ [];
  max_depth = 2;
}

abbrev pub waves : List (List (List String))
waves = (("scan" ∷ []) ∷ []) ∷ (("report" ∷ []) ∷ []) ∷ []

abbrev pub statuses : NodeStatus → NodeStatus → StatusMap
statuses s t = ("scan", state s) ∷ ("report", state t) ∷ []

abbrev pub engine : NodeStatus → NodeStatus → Engine
engine s t = record { sm = statuses s t; events = [] }
