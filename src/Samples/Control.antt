-- ===== src/Samples/Control.antt =====
-- The theorems on the consistency check and the adaptive control, at small inputs.
use mathlib.Core.List.Perm
use ai_workstation_core.Base.{
  String, List, [], ◌∷◌, none, some, ℕ, ◌+◌, Bool, true, false, ◌≡◌, ◌↔◌, refl, sym, ap, arith,
  length, contains, select,
}
use ai_workstation_core.Base.Assoc.{lookup, has, IsMap}
use ai_workstation_core.Types.Status.{NodeStatus, running, success, is_terminal}
use ai_workstation_core.Types.StatusMap.{NodeState, StatusMap, get}
use ai_workstation_core.Commit.{CommitEvent}
use ai_workstation_core.Journal.{load_terminals}
use ai_workstation_core.Trace.{new_collector, collect, terminal_statuses}
use ai_workstation_core.Trace.Laws.{noted_all, terminal_statuses-collect}
use ai_workstation_core.Verify
use ai_workstation_core.Consistency.{Texts, journal_of, full_consistency_check}
use ai_workstation_core.Adaptive.Signal.{
  State, all_pass, structural_fail, replay_divergence, Source, Signal,
}
use ai_workstation_core.Adaptive.Ingestor.{Clock, no_verdicts, no_metrics}
use ai_workstation_core.Adaptive.Ingestor.Reports.{
  from_consistency_report, from_consistency_report-all_pass_iff,
}
use ai_workstation_core.Adaptive.Feedback.{
  notify, halt, Action, Rule, is_recent, filter_by_state, is_in_cooldown, evaluate_rule,
  evaluate_from, evaluate, has_action_type, builtin_rules, action_of,
}
use ai_workstation_core.Adaptive.Feedback.Laws.{filter_by_state-select, evaluate-halts}
use ai_workstation_core.Adaptive.Feedback.Cooldown.{Spaced, evaluate-Spaced}
use ai_workstation_core.Adaptive.Bus.{
  Bus, Published, filter_valid, attempt_from, deliver_with_retry, deliver_action, deliver_all,
  publish,
}
use ai_workstation_core.Adaptive.Bus.Endpoints.{Failing, failing_endpoint, noop_endpoint}
use ai_workstation_core.Adaptive.Bus.Laws.{publish-length, publish-again}
use ai_workstation_core.Adaptive.Bus.Retries.{Outcome, deliver_with_retry-Outcome}
use ai_workstation_core.Samples.{graph, state, statuses}

abbrev event : String → NodeStatus → CommitEvent
event id s = record { node_id = id; new_status = s; outputs = none; artifacts = none }

abbrev events : List CommitEvent
events = event "scan" running ∷ event "scan" success ∷ []

terminal_statuses-collect_example :
    lookup "scan" (terminal_statuses (collect (λ n. true) "now" new_collector events).traces)
    ≡ noted_all (lookup "scan" (terminal_statuses new_collector.traces)) events "scan"
terminal_statuses-collect_example =
    terminal_statuses-collect (λ n. true) "now" new_collector events "scan"

abbrev texts : Texts
texts = record {
  mismatch = λ id s t. id;
  replay_failed = "replay";
  replay_report = λ r. "replay";
  structural_failed = "structural";
  structural_report = λ r. "structural";
}

abbrev source : Source
source = record { execution_id = "e"; project_ref = "p"; rir_hash = "h" }

abbrev clock : Clock
clock = record { text = "now"; now = 5 }

abbrev done : StatusMap
done = statuses success success

done_covered : (k : String) → has k done ≡ true → contains graph.order k ≡ true
unfolding lookup
done_covered k h = ground arith

state_ends : (s : NodeState) → state success ≡ s → is_terminal s.status ≡ true
unfolding is_terminal
state_ends s e = ap (λ (t : NodeState). is_terminal t.status) (sym e)

done_ended : (k : String) (s : NodeState) → lookup k done ≡ some s → is_terminal s.status ≡ true
unfolding lookup is_terminal
done_ended k s h = state_ends s (ground arith)

done-IsMap : IsMap done
unfolding lookup
done-IsMap = (refl, (refl, tt))

from_consistency_report-all_pass_iff_example :
    ((from_consistency_report clock source (
        full_consistency_check texts
          (λ n. true)
          "now"
          graph.order
          done
          (some done)
          (some graph))).state
      ≡ all_pass)
    ↔ (((k : String) → get done k ≡ get done k)
        × ((Verify.structural graph
              (load_terminals (journal_of "now" graph.order done).entries)).pass
            ≡ true))
from_consistency_report-all_pass_iff_example =
    from_consistency_report-all_pass_iff clock source texts done done graph.order "now" (λ n. true)
      graph done-IsMap done-IsMap done_covered done_ended

abbrev signal_at : ℕ → State → Signal
signal_at t s = record {
  id = "s";
  timestamp = t;
  source = source;
  verification = no_verdicts;
  divergences = [];
  metrics = no_metrics;
  drift = none;
  state = s;
}

abbrev action_id : String → String → ℕ → String
action_id rule trigger t = rule

abbrev alarms : List Signal
alarms = signal_at 1 all_pass ∷ signal_at 3 structural_fail ∷ []

evaluate-halts_example :
    (out : List Action) × (evaluate action_id builtin_rules alarms [] 5 ≡ some out)
    × (has_action_type out halt ≡ true)
evaluate-halts_example = evaluate-halts action_id alarms [] 5 refl

abbrev rule : Rule
rule = record {
  id = "R";
  state = replay_divergence;
  min_occurrences = 1;
  window = 100;
  action_type = notify;
  target = "app://x";
  cooldown = 10;
}

filter_by_state-select_example : filter_by_state alarms rule 5 ≡ select (is_recent rule 5) alarms
filter_by_state-select_example = filter_by_state-select alarms rule 5

abbrev trigger : Signal
trigger = signal_at 3 replay_divergence

abbrev earlier : Action
earlier = action_of action_id rule trigger 1 4

abbrev answered : Action
answered = action_of action_id rule trigger 1 20

answers : evaluate action_id (rule ∷ []) (trigger ∷ []) (earlier ∷ []) 20 ≡ some (answered ∷ [])
unfolding evaluate evaluate_from evaluate_rule filter_by_state is_in_cooldown
answers = refl

evaluate-Spaced_example : Spaced (earlier ∷ answered ∷ [])
evaluate-Spaced_example =
    evaluate-Spaced action_id (rule ∷ []) (trigger ∷ []) (earlier ∷ []) (answered ∷ []) 20 (tt, tt)
      answers

abbrev bus : Bus noop_endpoint
bus = record { endpoint = some []; delivered = []; max_attempts = 3 }

abbrev never : String → ℕ → Bool
never id n = false

abbrev stamp : String → ℕ
stamp id = 7

abbrev batch : List Action
batch = earlier ∷ earlier ∷ []

abbrev published : Published noop_endpoint
published = publish noop_endpoint (λ l. l) never stamp 6 bus batch

publish-length_example : length published.bus.delivered ≡ length bus.delivered + published.count
publish-length_example = publish-length noop_endpoint (λ l. l) never stamp Perm.refl 6 bus batch

all_delivered : published.count ≡ length (filter_valid bus.delivered [] 6 batch)
unfolding publish filter_valid deliver_all deliver_action deliver_with_retry attempt_from lookup
all_delivered = refl

publish-again_example :
    publish noop_endpoint (λ l. l) never stamp 9 published.bus batch
    ≡ record { bus = published.bus; count = 0; error = none }
publish-again_example =
    publish-again noop_endpoint (λ l. l) never stamp Perm.refl 6 9 bus batch [] (omega arith) refl
      all_delivered

abbrev failing : Failing
failing = record { fail_count = 2; failed = 0; delivered = [] }

deliver_with_retry-Outcome_example :
    Outcome failing_endpoint earlier 1 3 failing
      (deliver_with_retry failing_endpoint (λ n. false) 3 failing earlier).0
      (deliver_with_retry failing_endpoint (λ n. false) 3 failing earlier).1
deliver_with_retry-Outcome_example =
    deliver_with_retry-Outcome failing_endpoint earlier (λ n. false) 3 failing
