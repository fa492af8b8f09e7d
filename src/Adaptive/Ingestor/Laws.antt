-- ===== src/Adaptive/Ingestor/Laws.antt =====
-- What the state of a signal says of the reports that it is made of.
use ai_workstation_core.Base.{
  String, [], ◌∷◌, not, ◌≡◌, ◌↔◌, refl, arith, ◌∙◌, all, if◌then◌else◌, ltb,
}
use ai_workstation_core.Base.Assoc.{Assoc, lookup, IsMap}
use ai_workstation_core.Types.Status.{NodeStatus, success, status_eq}
use ai_workstation_core.Types.StatusMap.{StatusMap, get}
use ai_workstation_core.Replay
use ai_workstation_core.Replay.Laws
use ai_workstation_core.Verify
use ai_workstation_core.Adaptive.Signal.{
  all_pass, structural_fail, replay_divergence, partial_fail, classify, fail_count, Source,
}
use ai_workstation_core.Adaptive.Ingestor.{
  Clock, count_failed, replay_divergences, structural_divergences, from_replay_report,
  from_structural_report, from_full_verification,
}

count_failed-all :
    (sm : StatusMap) → ltb 0 (count_failed sm) ≡ not (all (λ e. status_eq e.1.status success) sm)
unfolding count_failed
count_failed-all [] = refl
count_failed-all (e ∷ sm) = ground (arith, count_failed-all sm)

-- The state of a signal from a complete verification: the worst of what its three parts report.
pub from_full_verification-state :
    (clock : Clock) (source : Source) (sm : StatusMap) (rp : Replay.Report) (sr : Verify.Report)
    → (from_full_verification clock source sm rp sr).state ≡ (
        if not sr.pass
        then structural_fail
        else if not rp.is_match
        then replay_divergence
        else if all (λ e. status_eq e.1.status success) sm
        then all_pass
        else partial_fail)
unfolding from_full_verification classify fail_count replay_divergences structural_divergences
from_full_verification-state clock source sm rp sr = ground (arith, count_failed-all sm)

from_replay_report-state :
    (clock : Clock) (source : Source) (rp : Replay.Report)
    → (from_replay_report clock source rp).state
      ≡ (if rp.is_match then all_pass else replay_divergence)
unfolding from_replay_report classify fail_count replay_divergences
from_replay_report-state clock source rp = ground arith

pub from_structural_report-state :
    (clock : Clock) (source : Source) (sr : Verify.Report)
    → (from_structural_report clock source sr).state
      ≡ (if sr.pass then all_pass else structural_fail)
unfolding from_structural_report classify fail_count structural_divergences
from_structural_report-state clock source sr = ground arith

-- For two maps without repeated keys, the signal of a replay is ALL_PASS exactly if the journal and
-- the second run give every node the same status, or both none.
pub from_replay_report-all_pass_iff :
    (clock : Clock) (source : Source) (journal : Assoc NodeStatus) (sm : StatusMap)
    → IsMap journal
    → IsMap sm
    → ((from_replay_report clock source (Replay.verify journal sm)).state ≡ all_pass)
      ↔ ((id : String) → lookup id journal ≡ get sm id)
from_replay_report-all_pass_iff clock source journal sm d f =
    let state = from_replay_report-state clock source (Replay.verify journal sm) in
    let agrees = Replay.Laws.verify_iff journal sm d f in
    (λ h. agrees.0 (ground arith), λ h. state ∙ ground (arith, agrees.1 h))
