-- ===== src/Adaptive/Ingestor.antt =====
-- mek/internal/adaptctl/signal/ingestor.go: the signals that are made of the kernel's reports. The
-- clock, as a text and as a time, is an argument.
pub mod Laws
pub mod Reports
use Prim.Native.String.{◌++◌ as append}
use ai_workstation_core.Base.{
  String, List, [], ◌∷◌, ◌++◌, Option, none, some, ℕ, ◌+◌, Bool, true, false, ◌&&◌, not,
  if◌then◌else◌, ltb, length, map,
}
use ai_workstation_core.Base.Assoc.{Assoc, lookup_or, insert}
use ai_workstation_core.Types.Status.{
  NodeStatus, blocked, ready, running, success, failure, skipped, terminated, other, status_eq,
}
use ai_workstation_core.Types.StatusMap.{StatusMap, NodeState}
use ai_workstation_core.Replay
use ai_workstation_core.Verify
use ai_workstation_core.Verify.{
  Violation, node_missing, not_terminal, dependency_failed, requirement_failed,
}
use ai_workstation_core.Adaptive.Signal.{
  all_pass, Verdict, unset, pass, fail, divergence, structural, critical, Source,
  VerificationResult, Divergence, Metrics, Drift, Signal, classify,
}

pub record Clock : Type 0 where
  pub text : String
  pub now : ℕ

-- The text of a status.
abbrev pub status_text : NodeStatus → String
status_text blocked = "BLOCKED"
status_text ready = "READY"
status_text running = "RUNNING"
status_text success = "SUCCESS"
status_text failure = "FAILURE"
status_text skipped = "SKIPPED"
status_text terminated = "TERMINATED"
status_text (other s) = s

abbrev pub violation_node : Violation → String
violation_node (node_missing id) = id
violation_node (not_terminal id s) = id
violation_node (dependency_failed id from s) = id
violation_node (requirement_failed id req s) = id

-- `"%s: %s"` of a violation's rule and message.
abbrev pub violation_text : Violation → String
violation_text (node_missing id) = "V-002: node missing from journal"
violation_text (not_terminal id s) = append "V-002: node not terminal: " (status_text s)
violation_text (dependency_failed id from s) =
    append "G6: SUCCESS but dependency " (append from (append " is " (status_text s)))
violation_text (requirement_failed id req none) =
    append "ACTIVATION: SUCCESS but requires " (append req " is ")
violation_text (requirement_failed id req (some s)) =
    append "ACTIVATION: SUCCESS but requires " (append req (append " is " (status_text s)))

abbrev pub no_verdicts : VerificationResult
no_verdicts = record {
  kernel = unset;
  journal = unset;
  trace = unset;
  replay = unset;
  structural = unset;
  consistency = unset;
}

abbrev pub no_metrics : Metrics
no_metrics = record { nodes_executed = 0; nodes_failed = 0 }

-- `New`
unfoldable pub new_signal : Clock → Source → Signal
new_signal clock source = record {
  id = append source.execution_id (append "-" clock.text);
  timestamp = clock.now;
  source = source;
  verification = no_verdicts;
  divergences = [];
  metrics = no_metrics;
  drift = none;
  state = all_pass;
}

-- The assignment of the verdicts and of what goes with them, and the classification.
abbrev pub conclude :
    Signal → VerificationResult → Metrics → List Divergence → Option Drift → Signal
conclude s v metrics divergences drift = record s {
  verification = v;
  metrics = metrics;
  divergences = divergences;
  drift = drift;
  state = classify v drift divergences;
}

abbrev pub critical_drift : Drift
critical_drift = record { detected = true; class = structural; severity = critical }

abbrev pub drift_if : Bool → Option Drift
drift_if true = some critical_drift
drift_if false = none

-- The loop over a status map: how many nodes did not succeed.
unfoldable pub count_failed : StatusMap → ℕ
count_failed [] = 0
count_failed (e ∷ sm) =
    let rest = count_failed sm in if status_eq e.1.status success then rest else rest + 1

abbrev pub verdict_if : Bool → Verdict → Verdict
verdict_if true bad = pass
verdict_if false bad = bad

abbrev pub kernel_verdict : StatusMap → Verdict
kernel_verdict sm = if ltb 0 (count_failed sm) then fail else pass

abbrev pub status_metrics : StatusMap → Metrics
status_metrics sm = record { nodes_executed = length sm; nodes_failed = count_failed sm }

unfoldable pub from_status_map : Clock → Source → StatusMap → Signal
from_status_map clock source sm =
    conclude (new_signal clock source) (record no_verdicts { kernel = kernel_verdict sm })
      (status_metrics sm) [] none

abbrev pub replay_divergence_of : Replay.Divergence → Divergence
replay_divergence_of d = record {
  domain = "kernel↔replay";
  node_id = d.node_id;
  expected = status_text d.journal_status;
  actual = status_text d.replay_status;
}

unfoldable pub replay_divergences : Replay.Report → List Divergence
replay_divergences rp = if rp.is_match then [] else map replay_divergence_of rp.divergences

abbrev pub has_any : List Divergence → Bool
has_any divergences = ltb 0 (length divergences)

unfoldable pub from_replay_report : Clock → Source → Replay.Report → Signal
from_replay_report clock source rp =
    let found = replay_divergences rp in
    conclude (new_signal clock source)
      (record no_verdicts { replay = verdict_if rp.is_match divergence })
      (record { nodes_executed = rp.replay_nodes; nodes_failed = 0 }) found
      (drift_if (has_any found))

abbrev pub structural_divergence_of : Violation → Divergence
structural_divergence_of v = record {
  domain = "structural";
  node_id = violation_node v;
  expected = "valid";
  actual = violation_text v;
}

unfoldable pub structural_divergences : Verify.Report → List Divergence
structural_divergences sr = if sr.pass then [] else map structural_divergence_of sr.violations

unfoldable pub from_structural_report : Clock → Source → Verify.Report → Signal
from_structural_report clock source sr =
    let found = structural_divergences sr in
    conclude (new_signal clock source) (record no_verdicts { structural = verdict_if sr.pass fail })
      (record { nodes_executed = sr.stats.terminal_nodes; nodes_failed = 0 }) found
      (drift_if (has_any found))

unfoldable pub from_full_verification :
    Clock → Source → StatusMap → Replay.Report → Verify.Report → Signal
from_full_verification clock source sm rp sr =
    let found = replay_divergences rp ++ structural_divergences sr in
    conclude (new_signal clock source)
      (record no_verdicts {
        kernel = kernel_verdict sm;
        replay = verdict_if rp.is_match divergence;
        structural = verdict_if sr.pass fail;
      })
      (record (status_metrics sm) { nodes_executed = rp.replay_nodes }) found
      (drift_if (has_any found))
