-- ===== src/Replay.antt =====
-- mek/internal/replay/replay.go: the comparison of a journal's last statuses with those of a second
-- run. Reading the files and running the kernel again are not part of it.
pub mod Laws
use mathlib.Core.List.{foldl}
use ai_workstation_core.Base.{
  String, List, [], ◌∷◌, ◌++◌, Option, none, some, ℕ, Bool, true, false, if◌then◌else◌, length,
}
use ai_workstation_core.Base.Assoc.{Assoc, lookup}
use ai_workstation_core.Types.Status.{NodeStatus, other, status_eq}
use ai_workstation_core.Types.StatusMap.{NodeState, StatusMap}

pub record Divergence : Type 0 where
  pub node_id : String
  pub journal_status : NodeStatus
  pub replay_status : NodeStatus

pub record Report : Type 0 where
  pub is_match : Bool
  pub divergences : List Divergence
  pub journal_entries : ℕ
  pub replay_nodes : ℕ

abbrev pub diverge : Report → Divergence → Report
diverge r d = record r { is_match = false; divergences = r.divergences ++ d ∷ [] }

-- The body of the loop over the journal's statuses.
unfoldable pub compare_entry : StatusMap → Report → String × NodeStatus → Report
compare_entry sm r (id, s) = elim (lookup id sm) [
  | none ↦ diverge r (record { node_id = id; journal_status = s; replay_status = other "MISSING" })
  | some state ↦
      if status_eq state.status s
      then r
      else diverge r (record { node_id = id; journal_status = s; replay_status = state.status })
]

-- The body of the loop over the nodes of the second run.
unfoldable pub compare_node : Assoc NodeStatus → Report → String × NodeState → Report
compare_node journal r (id, state) = elim (lookup id journal) [
  | none ↦
      diverge r
        (record { node_id = id; journal_status = other "MISSING"; replay_status = state.status })
  | some _ ↦ r
]

abbrev pub first_report : Assoc NodeStatus → StatusMap → Report
first_report journal sm = record {
  is_match = true;
  divergences = [];
  journal_entries = length journal;
  replay_nodes = length sm;
}

unfoldable pub verify : Assoc NodeStatus → StatusMap → Report
verify journal sm =
    foldl (compare_node journal) (foldl (compare_entry sm) (first_report journal sm) journal) sm
