-- ===== src/Consistency.antt =====
-- `FullConsistencyCheck` of mek/internal/verify/verify.go: a run of the kernel is told to a journal and
-- to a trace collector, and both are compared with the kernel's statuses, with the replay of the
-- journal and with the structural rules. The second run, the graph that is read again, the clock's
-- text and the texts of the details are arguments; the channel of events is the list.
pub mod Laws
pub mod Passing
use ai_workstation_core.Base.{
  String, List, [], ◌∷◌, ◌++◌, Option, none, some, ℕ, Bool, true, false, ◌&&◌, not, if◌then◌else◌,
  length, all,
}
use ai_workstation_core.Base.Assoc.{Assoc, lookup}
use ai_workstation_core.Types.Status.{NodeStatus, status_eq}
use ai_workstation_core.Types.StatusMap.{NodeState, StatusMap}
use ai_workstation_core.Types.Graph.{Ceg}
use ai_workstation_core.Commit.{CommitEvent}
use ai_workstation_core.Journal.{Journal, new_journal, subscribe, load_terminals}
use ai_workstation_core.Trace.{Collector, new_collector, collect, terminal_statuses}
use ai_workstation_core.Replay
use ai_workstation_core.Verify

pub data CheckName : Type 0 where
  journal_kernel trace_journal replay_journal structural : CheckName

pub record ConsistencyCheck : Type 0 where
  pub name : CheckName
  pub pass : Bool
  pub detail : String

pub record ConsistencyReport : Type 0 where
  pub pass : Bool
  pub checks : List ConsistencyCheck

-- The loop over the nodes of the graph that sends an event for each node with a state.
unfoldable pub events_of : StatusMap → List String → List CommitEvent
events_of sm [] = []
events_of sm (id ∷ ids) =
    let rest = events_of sm ids in
    elim (lookup id sm) [
      | none ↦ rest
      | some s ↦
          (record {
            node_id = id;
            new_status = s.status;
            outputs = s.outputs;
            artifacts = s.artifacts;
          })
          ∷ rest
    ]

-- A loop over a map that stops at the first entry that fails a test.
unfoldable pub first_failing : {V : Type 0} → (String × V → Bool) → Assoc V → Option (String × V)
first_failing test [] = none
first_failing test (e ∷ entries) =
    let rest = first_failing test entries in if test e then rest else some e

abbrev pub same_status : Option NodeStatus → NodeStatus → Bool
same_status none s = false
same_status (some t) s = status_eq t s

abbrev pub status_at : StatusMap → String → Option NodeStatus
status_at sm id = elim (lookup id sm) [ none ↦ none | some s ↦ some s.status ]

-- The texts of the details: a node with two statuses, and the reports.
pub record Texts : Type 0 where
  pub mismatch : String → NodeStatus → Option NodeStatus → String
  pub replay_failed : String
  pub replay_report : Replay.Report → String
  pub structural_failed : String
  pub structural_report : Verify.Report → String

-- The journal after the events.
abbrev pub journal_of : String → List String → StatusMap → Journal
journal_of now ids sm = subscribe now new_journal (events_of sm ids)

-- `report.Checks = append(...)` and `report.Pass = false`, for each check.
abbrev pub report_of : List ConsistencyCheck → ConsistencyReport
report_of checks = record { pass = all (λ (c : ConsistencyCheck). c.pass) checks; checks = checks }

module _ (texts : Texts) where
  -- Check 1, both loops.
  unfoldable pub check_journal : Assoc NodeStatus → StatusMap → ConsistencyCheck
  check_journal journal sm =
      elim (first_failing (λ e. same_status (status_at sm e.0) e.1) journal) [
        | some (id, s) ↦ record {
          name = journal_kernel;
          pass = false;
          detail = texts.mismatch id s (status_at sm id);
        }
        | none ↦ elim (first_failing (λ e. same_status (lookup e.0 journal) e.1.status) sm) [
          | some (id, s) ↦ record {
            name = journal_kernel;
            pass = false;
            detail = texts.mismatch id s.status (lookup id journal);
          }
          | none ↦ record { name = journal_kernel; pass = true; detail = "" }
        ]
      ]

  -- Check 2, which loops over the trace only.
  unfoldable pub check_trace : Assoc NodeStatus → Assoc NodeStatus → ConsistencyCheck
  check_trace traces journal =
      elim (first_failing (λ e. same_status (lookup e.0 journal) e.1) traces) [
        | some (id, s) ↦ record {
          name = trace_journal;
          pass = false;
          detail = texts.mismatch id s (lookup id journal);
        }
        | none ↦ record { name = trace_journal; pass = true; detail = "" }
      ]

  -- Check 3; `none` is an error of the second run.
  unfoldable pub check_replay : Option Replay.Report → ConsistencyCheck
  check_replay none = record { name = replay_journal; pass = false; detail = texts.replay_failed }
  check_replay (some rp) = record {
    name = replay_journal;
    pass = rp.is_match;
    detail = if rp.is_match then "" else texts.replay_report rp;
  }

  -- Check 4; `none` is an error of `Structural`.
  unfoldable pub check_structural : Option Verify.Report → ConsistencyCheck
  check_structural none = record {
    name = structural;
    pass = false;
    detail = texts.structural_failed;
  }
  check_structural (some sr) = record {
    name = structural;
    pass = sr.pass;
    detail = if sr.pass then "" else texts.structural_report sr;
  }

  unfoldable pub full_consistency_check :
      (ℕ → Bool)
      → String
      → List String
      → StatusMap
      → Option StatusMap
      → Option Ceg
      → ConsistencyReport
  full_consistency_check has_room now ids sm second again =
      let j = journal_of now ids sm in
      let tc = collect has_room now new_collector (events_of sm ids) in
      let journal = load_terminals j.entries in
      let replayed = Replay.verify (load_terminals j.file) in
      let rules = λ (g : Ceg). Verify.structural g (load_terminals j.file) in
      report_of (
        check_journal journal sm
        ∷ check_trace (terminal_statuses tc.traces) journal
        ∷ check_replay (elim second [ none ↦ none | some run ↦ some (replayed run) ])
        ∷ check_structural (elim again [ none ↦ none | some g ↦ some (rules g) ])
        ∷ [])
