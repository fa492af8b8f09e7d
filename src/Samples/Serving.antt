-- ===== src/Samples/Serving.antt =====
-- The theorems on the queues, the retries, the policies and the releases, at small inputs.
use ai_workstation_core.Base.{
  String, List, [], ◌∷◌, ◌++◌, none, some, ℕ, ◌+◌, ◌≤◌, ◌<◌, true, false, ◌≡◌, refl, arith,
  if◌then◌else◌, any, get_elem?,
}
use ai_workstation_core.Base.Assoc.{Assoc, lookup, insert}
use ai_workstation_core.FairQueue.{
  Request, SessionEntry, FairQueue, new_fair_queue, check_fairness, enqueue, got, dequeue,
}
use ai_workstation_core.FairQueue.Turns.{IsWell}
use ai_workstation_core.FairQueue.Enqueue.{Enqueued, enqueue-Enqueued}
use ai_workstation_core.FairQueue.Dequeue.{Served, dequeue-Served}
use ai_workstation_core.FairQueue.Passing.{new_fair_queue-IsWell, dequeue-enqueue}
use ai_workstation_core.Retry.{
  RetryBudget, McpRequest, returned, panicked, failure, Adapter, RetryConfig, execute_retry,
}
use ai_workstation_core.Retry.Attempts.{counting, execute_retry-paid, execute_retry-silent}
use ai_workstation_core.Policy.{
  pending, is_deny, RequestContext, PolicyRule, rule_mandatory_fields, rule_of, new_policy_engine,
  evaluate_stage, new_decision_graph, allowed, denied_by,
}
use ai_workstation_core.Policy.Stages.{
  IsBlind, denies_at, denied_by-evaluate_stage, evaluate_stage-deny,
}
use ai_workstation_core.Backpressure.{BackpressureConfig, new_backpressure_model, acquire}
use ai_workstation_core.Backpressure.Laws.{
  Acquired, acquire-Acquired, new_backpressure_model-Counts,
}
use ai_workstation_core.Release.{
  pending_external, publishing, ReleaseStatus, ReleaseInput, ReleaseEntry, pending_count,
  start_publishing, dequeue as take_release, complete,
}
use ai_workstation_core.Release.Laws.{complete-dequeue}
use ai_workstation_core.Release.Restart.{
  Call, enqueues, dequeues, completes, restarts, perform_all, perform_all-abandoned,
}

abbrev request : Request
request = record { request_id = "r"; session_id = "s"; timestamp_start = 1 }

abbrev empty_queue : FairQueue
empty_queue = new_fair_queue 2 0

abbrev in_order : Assoc SessionEntry → List (String × SessionEntry)
in_order m = m

enqueue-Enqueued_example : Enqueued empty_queue request (enqueue in_order 1 empty_queue request)
enqueue-Enqueued_example =
    enqueue-Enqueued in_order 1 empty_queue request (new_fair_queue-IsWell 2 0)

abbrev one_waiting : FairQueue
one_waiting = record {
  sessions =
      ("s", record { requests = request ∷ []; first_enqueue = 1; total_served = 0; max_wait = 0 })
      ∷ [];
  order = "s" ∷ [];
  pos = 0;
  max_size = 2;
  total = 1;
  max_starvation = 30000000000;
  last_check = 0;
}

accepted : enqueue in_order 1 empty_queue request ≡ some (one_waiting, [])
unfolding enqueue check_fairness lookup insert
accepted = refl

one_waiting-IsWell : IsWell one_waiting
unfolding enqueue check_fairness lookup insert
one_waiting-IsWell = (enqueue-Enqueued in_order 1 empty_queue request (new_fair_queue-IsWell 2 0)).0

dequeue-Served_example :
    (p : FairQueue) × (r : Request) × (dequeue 9 one_waiting ≡ got p r) × Served one_waiting p r
dequeue-Served_example = dequeue-Served 9 one_waiting one_waiting-IsWell (omega arith)

dequeue-enqueue_example :
    (end : FairQueue) × (dequeue 9 one_waiting ≡ got end request) × (end.total ≡ 0) × IsWell end
dequeue-enqueue_example =
    dequeue-enqueue in_order 1 9 empty_queue one_waiting request [] (new_fair_queue-IsWell 2 0) refl
      accepted

abbrev call : McpRequest
call = record { id = "c"; tool = "git" }

abbrev budget : RetryBudget
budget = record { total_cap = 3; total_used = 0; per_tool_cap = 2; tool_used = [] }

abbrev config : RetryConfig
config = record { max_retries = 2; base_delay = 100; max_delay = 1000 }

-- An adapter that fails without an error.
abbrev silent : Adapter
silent = record { State = Unit; execute = λ s b req. (s, b, returned (failure req "no") none) }

execute_retry-silent_example : (execute_retry silent config false tt budget call).2 ≡ panicked
execute_retry-silent_example = execute_retry-silent silent config call (λ s b. refl) tt budget

execute_retry-paid_example :
    (execute_retry (counting silent) config true (0, tt) budget call).0.0 + budget.total_used
    ≤ 0 + 1 + (execute_retry (counting silent) config true (0, tt) budget call).1.total_used
execute_retry-paid_example =
    execute_retry-paid silent config true 0 tt budget call refl (λ t c r. refl)

abbrev context : RequestContext
context = record {
  request_id = "r";
  session_id = "";
  project_id = "p";
  tool_id = "git";
  path = none;
  status = pending;
  policy_graph = [];
}

abbrev rules : List PolicyRule
rules = rule_of "POL-001" "mandatory-context-fields" "pre_validation" 10 rule_mandatory_fields ∷ []

denied_by-evaluate_stage_example :
    (denied_by (new_decision_graph (evaluate_stage rules "pre_validation" context none).1) ≡ (
      if allowed (new_decision_graph (evaluate_stage rules "pre_validation" context none).1)
      then ""
      else (evaluate_stage rules "pre_validation" context none).1.rule_id))
    × ((evaluate_stage rules "pre_validation" context none).0.policy_graph
        ≡ context.policy_graph
          ++ (new_decision_graph (evaluate_stage rules "pre_validation" context none).1).graph)
denied_by-evaluate_stage_example = denied_by-evaluate_stage "pre_validation" none rules context

blind :
    IsBlind "pre_validation" none
      (rule_of "POL-001" "mandatory-context-fields" "pre_validation" 10 rule_mandatory_fields)
unfolding rule_mandatory_fields
blind ctx d = refl

evaluate_stage-deny_example :
    is_deny (evaluate_stage (new_policy_engine rules) "pre_validation" context none).1.decision
    ≡ any (denies_at "pre_validation" none context) rules
evaluate_stage-deny_example = evaluate_stage-deny "pre_validation" none rules context (blind, tt)

abbrev limits : BackpressureConfig
limits = record { max_queue_per_session = 2; max_queue_total = 3; tool_throttle = ("git", 1) ∷ [] }

acquire-Acquired_example :
    Acquired
      (new_backpressure_model limits)
      []
      "s"
      "git"
      (acquire (new_backpressure_model limits) "s" "git")
acquire-Acquired_example =
    acquire-Acquired (new_backpressure_model limits) [] "s" "git"
      (new_backpressure_model-Counts limits)

abbrev release_at : ReleaseStatus → ReleaseEntry
release_at status = record {
  release_id = "v1@abc";
  commit_sha = "abc";
  version = "v1";
  release_notes = "";
  status = status;
  retry = record { attempts = 0; next_retry_at = 0; finalized = false };
  idempotency_key = "k";
  created_at = 0;
  updated_at = 0;
  last_error = "";
}

abbrev backoff : ℕ → String → String → ℕ
backoff n sha version = 30000

abbrev releases : List ReleaseEntry
releases = release_at pending_external ∷ []

abbrev taken : ReleaseEntry
taken = start_publishing 5 (release_at pending_external)

takes : take_release 5 releases ≡ some (taken, taken ∷ [])
unfolding take_release
takes = refl

complete-dequeue_example :
    pending_count (complete backoff 6 "v1@abc" true "" (taken ∷ [])) + 1 ≡ pending_count releases
complete-dequeue_example = complete-dequeue backoff 5 6 releases (taken ∷ []) taken "" refl takes

abbrev waiting : ReleaseEntry
waiting = record (release_at pending_external) { release_id = "v2@def"; version = "v2" }

abbrev interrupted : List ReleaseEntry
interrupted = waiting ∷ release_at publishing ∷ []

-- After a restart another release is taken, enqueued and completed; the interrupted one stays.
abbrev later_calls : List Call
later_calls =
    restarts
    ∷ dequeues 7
    ∷ enqueues 8 (record { version = "v3"; commit_sha = "fed"; release_notes = "" })
    ∷ dequeues 9
    ∷ completes 10 "v2@def" true ""
    ∷ []

abbrev release_id_of : ReleaseInput → String
release_id_of input = input.version

perform_all-abandoned_example :
    (get_elem? (perform_all backoff release_id_of release_id_of interrupted later_calls) 1
      ≡ some (release_at publishing))
    × (0 < pending_count (perform_all backoff release_id_of release_id_of interrupted later_calls))
perform_all-abandoned_example =
    perform_all-abandoned backoff release_id_of release_id_of interrupted later_calls 1
      (release_at publishing) (tt, (tt, (tt, (tt, (refl, tt))))) refl refl
