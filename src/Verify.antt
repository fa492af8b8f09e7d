-- ===== src/Verify.antt =====
-- `Structural` of mek/internal/verify/verify.go: the checks of a graph against the last statuses of a
-- journal, once both files have been read. Of a violation's text the model keeps what it prints.
pub mod Laws
pub mod Kernel
use mathlib.Core.List.{foldl}
use ai_workstation_core.Base.{
  String, List, [], ◌∷◌, ◌++◌, Option, none, some, ℕ, zero, suc, ◌+◌, Bool, true, false, not, ◌&&◌,
  if◌then◌else◌, str_eq, length,
}
use ai_workstation_core.Base.Assoc.{Assoc, lookup}
use ai_workstation_core.Types.Status.{NodeStatus, success, is_terminal, status_eq}
use ai_workstation_core.Types.Rir.{Edge}
use ai_workstation_core.Types.Graph.{CegNode, Ceg}

-- Rule V-002 twice, G6, and ACTIVATION.
pub data Violation : Type 0 where
  node_missing : (node_id : String) → Violation
  not_terminal : (node_id : String) (status : NodeStatus) → Violation
  dependency_failed : (node_id from : String) (status : NodeStatus) → Violation
  requirement_failed : (node_id requirement : String) (status : Option NodeStatus) → Violation

pub record Stats : Type 0 where
  pub total_nodes : ℕ
  pub total_edges : ℕ
  pub terminal_nodes : ℕ
  pub dependency_checks : ℕ

pub record Report : Type 0 where
  pub pass : Bool
  pub violations : List Violation
  pub stats : Stats

abbrev pub violate : Report → Violation → Report
violate r v = record r { pass = false; violations = r.violations ++ v ∷ [] }

-- The body of the first loop.
unfoldable pub check_node : Assoc NodeStatus → Report → String → Report
check_node terminals r id = elim (lookup id terminals) [
  | none ↦ violate r (node_missing id)
  | some s ↦ if is_terminal s then r else violate r (not_terminal id s)
]

-- `toStatus == SUCCESS && fromStatus != SUCCESS`, where both are there.
unfoldable pub check_dependency : Assoc NodeStatus → Report → Edge → Report
check_dependency terminals r edge = elim (lookup edge.to terminals) [
  | none ↦ r
  | some to ↦ elim (lookup edge.from terminals) [
    | none ↦ r
    | some from ↦
        if status_eq to success && not (status_eq from success)
        then violate r (dependency_failed edge.to edge.from from)
        else r
  ]
]

abbrev pub count_check : Report → Report
count_check r = record r {
  stats = record r.stats { dependency_checks = r.stats.dependency_checks + 1 };
}

-- The body of the second loop.
unfoldable pub check_edge : Assoc NodeStatus → Report → Edge → Report
check_edge terminals r edge =
    if str_eq edge.type "dependency" then check_dependency terminals (count_check r) edge else r

-- The body of the loop over what a node requires.
unfoldable pub check_requirement : Assoc NodeStatus → String → Report → String → Report
check_requirement terminals id r req = elim (lookup req terminals) [
  | none ↦ violate r (requirement_failed id req none)
  | some s ↦ if status_eq s success then r else violate r (requirement_failed id req (some s))
]

-- `ok && nodeStatus == SUCCESS`
abbrev pub has_success : Assoc NodeStatus → String → Bool
has_success terminals id = elim (lookup id terminals) [
  | none ↦ false
  | some s ↦ status_eq s success
]

-- The body of the third loop.
unfoldable pub check_activation : Ceg → Assoc NodeStatus → Report → String → Report
check_activation ceg terminals r id = elim (lookup id ceg.node_map) [
  | none ↦ r
  | some node ↦
      if str_eq node.activation.condition "all_success" && has_success terminals id
      then foldl (check_requirement terminals id) r node.activation.requires
      else r
]

abbrev pub first_report : Ceg → Assoc NodeStatus → Report
first_report ceg terminals = record {
  pass = true;
  violations = [];
  stats = record {
    total_nodes = length ceg.order;
    total_edges = length ceg.edges;
    terminal_nodes = length terminals;
    dependency_checks = 0;
  };
}

unfoldable pub structural : Ceg → Assoc NodeStatus → Report
structural ceg terminals =
    foldl (check_activation ceg terminals)
      (foldl (check_edge terminals)
        (foldl (check_node terminals) (first_report ceg terminals) ceg.order) ceg.edges)
      ceg.order
