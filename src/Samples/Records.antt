-- ===== src/Samples/Records.antt =====
-- The theorems on the journal, the replay, the verification, the dispatcher and the circuit breaker.
use ai_workstation_core.Base.{
  String, ℕ, [], ◌∷◌, none, some, ◌<◌, true, false, ◌&&◌, ◌≡◌, ◌↔◌, ◌⊎◌, refl, arith, all, length,
}
use ai_workstation_core.Base.Assoc.{Assoc, lookup, insert}
use ai_workstation_core.Types.Status.{
  NodeStatus, ready, running, success, failure, is_terminal, other,
}
use ai_workstation_core.Types.StatusMap.{get, get_state, set_state, all_terminal}
use ai_workstation_core.Types.Rir.{gate}
use ai_workstation_core.Types.Graph.{CegNode}
use ai_workstation_core.Commit.{
  CommitEvent, commit, new, event_capacity, publish, first_state, next_state, is_valid_transition,
}
use ai_workstation_core.Commit.Histories.{Writes, done, write}
use ai_workstation_core.Journal.{Journal, new_journal, subscribe, load_terminals}
use ai_workstation_core.Journal.Kernel.{subscribe-agrees}
use ai_workstation_core.Replay
use ai_workstation_core.Replay.Laws.{verify_iff}
use ai_workstation_core.Verify.{structural}
use ai_workstation_core.Verify.Laws.{ends_well, is_respected, is_activated, structural-pass}
use ai_workstation_core.Verify.Kernel.{kernel_run-is_activated}
use ai_workstation_core.Base.Sorting.{sort_strings, insert_sorted}
use ai_workstation_core.Ceg.Activation.{evaluate_activation, should_skip}
use ai_workstation_core.Scheduler.Steps.{
  init_status_map, init_node, claim, claim_from, wait_wave, wait_open, wait_timed, recompute,
  recompute_node, collect_blocked,
}
use ai_workstation_core.Scheduler.Loop.{
  run_loop, run_layers, run_waves, run_wave, run_claimed, drain, collect, accept, settled,
  wave_deadline,
}
use ai_workstation_core.Scheduler.Loop.Writes.{engine_of}
use ai_workstation_core.Scheduler.Justified.Loop.{kernel_run}
use ai_workstation_core.Dispatcher.{AdapterConfig, Dispatcher, Adapter, result, dispatch}
use ai_workstation_core.Dispatcher.Laws.{Committable, FromAdapter, dispatch-accounted}
use ai_workstation_core.CircuitBreaker.{
  CircuitBreakerConfig, CircuitBreaker, new_circuit_breaker, open_circuit, Reply, admit, settle,
  rejected_half_open,
}
use ai_workstation_core.CircuitBreaker.Laws.{WithinProbes, interleaving-WithinProbes}
use ai_workstation_core.CircuitBreaker.Rejecting.{◌⇒*◌, fresh, new_circuit_breaker-stuck}
use ai_workstation_core.Samples.{node, graph, statuses, waves}
use ai_workstation_core.Samples.Scheduling.{answer, answering, answering-Arrives}

abbrev event : String → NodeStatus → CommitEvent
event id s = record { node_id = id; new_status = s; outputs = none; artifacts = none }

abbrev journal : Journal
journal = subscribe "now" new_journal (event "scan" ready ∷ event "scan" running ∷ [])

one_commit : Writes (new []) (commit (new []) "scan" ready none).0
one_commit = write "scan" ready none done

has_room : length (commit (new []) "scan" ready none).0.events < event_capacity
unfolding new commit get_state lookup publish
has_room = omega arith

subscribe-agrees_example :
    lookup "scan" (
      load_terminals
        (subscribe "now" new_journal (commit (new []) "scan" ready none).0.events).entries)
    ≡ get (commit (new []) "scan" ready none).0.sm "scan"
subscribe-agrees_example = subscribe-agrees "now" "scan" one_commit has_room

abbrev recorded : Assoc NodeStatus
recorded = ("scan", success) ∷ ("report", failure) ∷ []

verify_iff_example :
    ((Replay.verify recorded (statuses success success)).is_match ≡ true)
    ↔ ((id : String) → lookup id recorded ≡ get (statuses success success) id)
unfolding lookup
verify_iff_example =
    verify_iff recorded (statuses success success) (refl, (refl, tt)) (refl, (refl, tt))

structural-pass_example : (structural graph recorded).pass ≡ (
    all (ends_well recorded) graph.order
    && all (is_respected recorded) graph.edges
    && all (is_activated graph recorded) graph.order)
structural-pass_example = structural-pass graph recorded

-- A run of both nodes announces seven statuses.
short_run :
    length (engine_of (kernel_run graph (answering (answer success false)) waves)).events ≡ 7
unfolding init_status_map init_node run_loop run_layers run_waves run_wave run_claimed claim
    claim_from drain collect accept settled wait_wave wait_open wait_timed wave_deadline
    all_terminal recompute recompute_node collect_blocked evaluate_activation should_skip commit
    publish is_valid_transition get_state get set_state lookup insert is_terminal first_state
    next_state new sort_strings insert_sorted
short_run = refl

has_room_left :
    length (engine_of (kernel_run graph (answering (answer success false)) waves)).events
    < event_capacity
has_room_left = omega (arith, short_run)

kernel_run-is_activated_example :
    is_activated graph
      (load_terminals
        (subscribe "now" new_journal
          (engine_of (kernel_run graph (answering (answer success false)) waves)).events).entries)
      "report"
    ≡ true
kernel_run-is_activated_example =
    kernel_run-is_activated graph (answering (answer success false)) waves "now" "report"
      answering-Arrives has_room_left

abbrev no_settings : AdapterConfig
no_settings = record { agent_adapters = []; tool_adapters = [] }

-- An adapter that answers a status of which the commit engine knows no transition.
abbrev timed_out : Adapter
timed_out ctx = result (answer (other "timeout") false)

abbrev dispatcher : Dispatcher
dispatcher = record {
  ceg = graph;
  config = no_settings;
  adapters = ("internal/noop", timed_out) ∷ [];
}

dispatch-accounted_example :
    Committable (dispatch dispatcher 7 "scan")
    ⊎ FromAdapter dispatcher 7 "scan" (dispatch dispatcher 7 "scan")
dispatch-accounted_example = dispatch-accounted dispatcher 7 "scan"

abbrev gate_node : CegNode
gate_node = record (node "choose" []) {
  type = gate;
  gate = some (record {
    branches = record { condition = "score above nine"; target = "report" } ∷ [];
    default = "ESCALATE";
  });
}

abbrev gated : Dispatcher
gated = record dispatcher { ceg = record graph { node_map = ("choose", gate_node) ∷ [] } }

abbrev config : CircuitBreakerConfig
config = record {
  failure_threshold = 5;
  latency_threshold = 10;
  recovery_timeout = 20;
  half_open_max_requests = 3;
}

abbrev breaker : CircuitBreaker
breaker = record {
  state = open_circuit;
  consecutive_fail = 5;
  last_failure_time = 100;
  half_open_sent = 0;
  config = config;
}

abbrev slow : Reply
slow = record { is_failure = false; elapsed = 11; finished_at = 140 }

interleaving-WithinProbes_example :
    WithinProbes (admit 130 breaker).0 × WithinProbes (settle slow breaker)
interleaving-WithinProbes_example = interleaving-WithinProbes 130 slow breaker (omega arith)

-- The configuration with every default.
abbrev unset : CircuitBreakerConfig
unset = record {
  failure_threshold = 0;
  latency_threshold = 0;
  recovery_timeout = 0;
  half_open_max_requests = 0;
}

few_probes :
    (new_circuit_breaker unset).config.half_open_max_requests
    < (new_circuit_breaker unset).config.failure_threshold
unfolding new_circuit_breaker
few_probes = omega arith

new_circuit_breaker-stuck_example :
    (b : CircuitBreaker) × (clock : ℕ) × (fresh unset
      ⇒* record { breaker = b; under_way = []; clock = clock })
    × ((now : ℕ) → admit now b ≡ (b, rejected_half_open))
new_circuit_breaker-stuck_example = new_circuit_breaker-stuck unset few_probes
