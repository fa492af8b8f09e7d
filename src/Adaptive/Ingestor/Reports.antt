-- ===== src/Adaptive/Ingestor/Reports.antt =====
-- `FromConsistencyReport` of mek/internal/adaptctl/signal/ingestor.go.
use ai_workstation_core.Base.{
  String, List, [], ◌∷◌, some, ℕ, Bool, true, false, not, ◌≡◌, ◌↔◌, ◌⊎◌, inl, refl, arith, ◌∙◌, all,
  if◌then◌else◌,
}
use ai_workstation_core.Base.Assoc.{IsMap, lookup, has}
use ai_workstation_core.Base.{contains}
use ai_workstation_core.Types.Status.{is_terminal}
use ai_workstation_core.Types.StatusMap.{NodeState, StatusMap, get}
use ai_workstation_core.Types.Graph.{Ceg}
use ai_workstation_core.Journal.{load_terminals}
use ai_workstation_core.Verify
use ai_workstation_core.Consistency.{
  CheckName, journal_kernel, trace_journal, replay_journal, structural, ConsistencyCheck,
  ConsistencyReport, Texts, report_of, journal_of, full_consistency_check,
}
use ai_workstation_core.Consistency.Passing.{full_consistency_check-pass_iff}
use ai_workstation_core.Adaptive.Signal.{
  all_pass, consistency_fail, Verdict, unset, pass, fail, Source, Divergence, Signal, classify,
  fail_count,
}
use ai_workstation_core.Adaptive.Ingestor.{
  Clock, no_verdicts, no_metrics, new_signal, conclude, verdict_if, drift_if,
}

-- The name as a text, and whether two names are equal.
abbrev pub name_text : CheckName → String
name_text journal_kernel = "journal↔kernel"
name_text trace_journal = "trace↔journal"
name_text replay_journal = "replay↔journal"
name_text structural = "structural"

abbrev pub name_eq : CheckName → CheckName → Bool
name_eq journal_kernel journal_kernel = true
name_eq trace_journal trace_journal = true
name_eq replay_journal replay_journal = true
name_eq structural structural = true
name_eq _ _ = false

-- `domains[name]` after the loop over the checks.
unfoldable pub verdict_of : CheckName → Verdict → List ConsistencyCheck → Verdict
verdict_of name v [] = v
verdict_of name v (c ∷ checks) =
    verdict_of name (if name_eq c.name name then verdict_if c.pass fail else v) checks

-- What the loop appends for the checks that fail.
unfoldable pub failed_checks : List ConsistencyCheck → List Divergence
failed_checks [] = []
failed_checks (c ∷ checks) =
    let rest = failed_checks checks in
    if c.pass
    then rest
    else (record { domain = name_text c.name; node_id = ""; expected = ""; actual = c.detail })
      ∷ rest

unfoldable pub from_consistency_report : Clock → Source → ConsistencyReport → Signal
from_consistency_report clock source cr =
    conclude (new_signal clock source)
      (record no_verdicts {
        consistency = verdict_if (all (λ (c : ConsistencyCheck). c.pass) cr.checks) fail;
        journal = verdict_of journal_kernel unset cr.checks;
        trace = verdict_of trace_journal unset cr.checks;
        replay = verdict_of replay_journal unset cr.checks;
        structural = verdict_of structural unset cr.checks;
      })
      no_metrics (failed_checks cr.checks) (drift_if (not cr.pass))

-- With no failed check, no verdict is a failure.
verdict_of-passing :
    (name : CheckName) (v : Verdict) (checks : List ConsistencyCheck)
    → (v ≡ unset) ⊎ (v ≡ pass)
    → all (λ (c : ConsistencyCheck). c.pass) checks ≡ true
    → (verdict_of name v checks ≡ unset) ⊎ (verdict_of name v checks ≡ pass)
unfolding verdict_of
verdict_of-passing name v [] h ok = h
verdict_of-passing name v (c ∷ checks) h ok =
    verdict_of-passing name (if name_eq c.name name then verdict_if c.pass fail else v) checks
      (ground (arith, h, ok)) (ground arith)

from_consistency_report-state :
    (clock : Clock) (source : Source) (checks : List ConsistencyCheck)
    → (from_consistency_report clock source (report_of checks)).state
      ≡ (if all (λ (c : ConsistencyCheck). c.pass) checks then all_pass else consistency_fail)
unfolding from_consistency_report classify fail_count
from_consistency_report-state clock source checks = ground (
  arith,
  verdict_of-passing journal_kernel unset checks (inl refl),
  verdict_of-passing trace_journal unset checks (inl refl),
  verdict_of-passing replay_journal unset checks (inl refl),
  verdict_of-passing structural unset checks (inl refl),
)

-- For a kernel run whose states are those of nodes of the graph, all terminal, without repeated
-- keys, and a second run and a graph that could be read: the signal of the consistency check is
-- ALL_PASS exactly if the second run gives every node the same status as the first, or both none,
-- and the structural rules hold of the statuses in the journal.
pub from_consistency_report-all_pass_iff :
    (clock : Clock) (source : Source) (texts : Texts) (sm run : StatusMap) (ids : List String)
    (now : String) (has_room : ℕ → Bool) (ceg : Ceg)
    → IsMap sm
    → IsMap run
    → ((k : String) → has k sm ≡ true → contains ids k ≡ true)
    → ((k : String) (s : NodeState) → lookup k sm ≡ some s → is_terminal s.status ≡ true)
    → ((from_consistency_report clock source
          (full_consistency_check texts has_room now ids sm (some run) (some ceg))).state
        ≡ all_pass)
      ↔ (((k : String) → get sm k ≡ get run k)
          × ((Verify.structural ceg (load_terminals (journal_of now ids sm).entries)).pass ≡ true))
unfolding full_consistency_check
from_consistency_report-all_pass_iff clock source texts sm run ids now has_room ceg d e covered
      ended =
    let report = full_consistency_check texts has_room now ids sm (some run) (some ceg) in
    let state = from_consistency_report-state clock source report.checks in
    let passes =
      full_consistency_check-pass_iff texts sm ids now has_room d covered ended run ceg e in
    (λ h. passes.0 (ground arith), λ h. state ∙ ground (arith, passes.1 h))
