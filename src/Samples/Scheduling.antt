-- ===== src/Samples/Scheduling.antt =====
-- The theorems on the scheduler at the sample graph.
use mathlib.Core.List.{flatten, Perm}
use mathlib.Core.List.Perm
use ai_workstation_core.Base.{
  [], ◌∷◌, none, ℕ, Bool, true, false, ◌≡◌, refl, ◌↔◌, ◌⊎◌, arith, inr, leb,
}
use ai_workstation_core.Base.Assoc.{lookup, insert}
use ai_workstation_core.Types.Status.{
  NodeStatus, blocked, ready, running, success, terminated, is_terminal,
}
use ai_workstation_core.Types.StatusMap.{ExecutionResult, get, get_state, set_state, all_terminal}
use ai_workstation_core.Commit.{commit, publish, is_valid_transition, new, next_state}
use ai_workstation_core.Scheduler.Steps.{
  Signals, wait_wave, terminate_nodes, terminate_node, terminate_all, claim, claim_from,
}
use ai_workstation_core.Scheduler.Loop.{
  returned, Env, Run, escalated, run_loop, run_layers, run_waves, run_wave, run_claimed, drain,
  collect, accept,
}
use ai_workstation_core.Scheduler.Justified.{Justified}
use ai_workstation_core.Scheduler.Justified.Loop.{Arrives}
use ai_workstation_core.Scheduler.Ends.Waits.{following, wait_wave-polls_iff}
use ai_workstation_core.Scheduler.Ends.Escalation.{run_loop-escalated}
use ai_workstation_core.Scheduler.Ends.Returns.{Returns, TimersFire, run_loop-Returns}
use ai_workstation_core.Scheduler.Waves.{Conflicts, colour_graph, build_conflict_graph}
use ai_workstation_core.Scheduler.Waves.Grouping.{AllWaves}
use ai_workstation_core.Scheduler.Waves.Partition.{colour_graph-Perm}
use ai_workstation_core.Scheduler.Waves.Graph.{ClashFree, layer_waves-ClashFree}
use ai_workstation_core.Samples.{rir, statuses, graph, waves, engine}

abbrev pub answer : NodeStatus → Bool → ExecutionResult
answer s e = record {
  status = s;
  outputs = none;
  artifacts = none;
  escalation = e;
  selected_branch = "";
  metrics = record { duration_ms = 0; tokens_used = none };
}

-- The context is never done, and a timeout is over after as many polls.
abbrev pub timely : Signals
timely = record {
  is_done = λ round. false;
  is_expired = λ timeout round. leb timeout round;
  prefers_context = λ round. false;
  rounds = λ timeout. timeout;
}

timely-TimersFire : TimersFire timely
timely-TimersFire timeout positive = (timeout, omega arith, ground arith)

-- Every node answers in the same way, and a wave waits for five polls at most.
abbrev pub answering : ExecutionResult → Env
answering r = record {
  dispatch = λ layer index id. returned r;
  arrival = λ layer index ids. ids;
  duration = λ text. 5;
  signals = λ layer index. timely;
}

pub answering-Arrives : Arrives (answering (answer success false))
answering-Arrives layer index ids = Perm.refl ids

no_start : Justified graph (new []).sm
unfolding get lookup new
no_start id node found started = ground arith

abbrev no_deadline : ℕ
no_deadline = 0

wait_wave-polls_iff_example :
    ((k : ℕ)
      → wait_wave (following timely k) no_deadline (engine running blocked) ("report" ∷ []) ≡ none)
    ↔ ((all_terminal (engine running blocked).sm ("report" ∷ []) ≡ false)
        × ((n : ℕ) → timely.is_done n ≡ false)
        × ((no_deadline ≡ 0) ⊎ ((n : ℕ) → timely.is_expired no_deadline n ≡ false)))
wait_wave-polls_iff_example =
    wait_wave-polls_iff timely no_deadline (engine running blocked) ("report" ∷ [])

-- The run in which `scan` asks for an escalation.
abbrev escalation_run : Run
escalation_run = record {
  engine = record {
    sm = statuses terminated terminated;
    events =
        record { node_id = "scan"; new_status = running; outputs = none; artifacts = none }
        ∷ record { node_id = "scan"; new_status = terminated; outputs = none; artifacts = none }
        ∷ record { node_id = "report"; new_status = terminated; outputs = none; artifacts = none }
        ∷ [];
  };
  metrics = record {
    nodes_executed = 1;
    nodes_failed = 0;
    waves_completed = 0;
    escalation_requested = true;
  };
}

escalates :
    run_loop graph (answering (answer success true)) waves (engine ready blocked)
    ≡ escalated escalation_run
unfolding run_loop run_layers run_waves run_wave run_claimed claim claim_from drain collect accept
    terminate_all terminate_nodes terminate_node commit publish is_valid_transition get_state get
    set_state lookup insert is_terminal next_state
escalates = refl

run_loop-escalated_example :
    (all_terminal escalation_run.engine.sm graph.order ≡ true)
    × (escalation_run.metrics.escalation_requested ≡ true)
unfolding get lookup
run_loop-escalated_example =
    run_loop-escalated graph (answering (answer success true)) waves (engine ready blocked)
      escalation_run refl escalates

run_loop-Returns_example :
    Returns (run_loop graph (answering (answer success false)) waves (engine ready blocked))
unfolding lookup
run_loop-Returns_example =
    run_loop-Returns graph (answering (answer success false)) (λ layer index id. tt) waves
      (engine ready blocked)
      ((inr (refl, timely-TimersFire), tt), ((inr (refl, timely-TimersFire), tt), tt))

abbrev conflicts : Conflicts
conflicts = build_conflict_graph ("scan" ∷ "report" ∷ []) rir

colour_graph-Perm_example :
    Perm (flatten (colour_graph ("scan" ∷ "report" ∷ []) conflicts)) ("scan" ∷ "report" ∷ [])
colour_graph-Perm_example = colour_graph-Perm ("scan" ∷ "report" ∷ []) conflicts

layer_waves-ClashFree_example :
    AllWaves (ClashFree rir) (colour_graph ("scan" ∷ "report" ∷ []) conflicts)
layer_waves-ClashFree_example =
    layer_waves-ClashFree rir ("scan" ∷ "report" ∷ []) (refl, (refl, tt))
