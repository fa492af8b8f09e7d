-- ===== src/FairQueue.antt =====
-- runtime/queue/fair_queue.go: a queue of requests per session, served in turns. Times are nanoseconds
-- and each call reads the clock, an argument, once. Another argument is the order in which the loops of
-- `checkFairness` meet the sessions, the same in each loop; the calls of the violation callback are
-- answered as a list. Of a request the model has the fields that the queue reads and the identifier.
pub mod Turns
pub mod Enqueue
pub mod Line
pub mod Dequeue
pub mod Passing
use ai_workstation_core.Base.{
  String, List, [], ◌∷◌, ◌++◌, Option, none, some, ℕ, zero, suc, ◌+◌, ◌-◌, ◌*◌, ◌/◌, ◌%◌, Bool,
  true, false, ◌&&◌, if◌then◌else◌, ◌==◌, ltb, leb, str_eq, length, get_elem?, take, drop, select,
  map,
}
use ai_workstation_core.Base.Assoc.{Assoc, lookup, insert, remove}

pub record Request : Type 0 where
  pub request_id : String
  pub session_id : String
  pub timestamp_start : ℕ

pub record SessionEntry : Type 0 where
  pub requests : List Request
  pub first_enqueue : ℕ
  pub total_served : ℕ
  pub max_wait : ℕ

pub record FairQueue : Type 0 where
  pub sessions : Assoc SessionEntry
  pub order : List String
  pub pos : ℕ
  pub max_size : ℕ
  pub total : ℕ
  pub max_starvation : ℕ
  pub last_check : ℕ

pub data ViolationType : Type 0 where
  fairness_warning fairness_violation : ViolationType

-- `FairnessViolation`; the waiting time is in microseconds.
pub record FairnessViolation : Type 0 where
  pub type : ViolationType
  pub session_id : String
  pub wait_time : ℕ
  pub risk_sessions : List String
  pub timestamp : ℕ

-- `NewFairQueue`
abbrev pub new_fair_queue : ℕ → ℕ → FairQueue
new_fair_queue max_size now = record {
  sessions = [];
  order = [];
  pos = 0;
  max_size = max_size;
  total = 0;
  max_starvation = 30 * 1000000000;
  last_check = now;
}

unfoldable pub max_pending : List (String × SessionEntry) → ℕ
max_pending [] = 0
max_pending ((id, entry) ∷ entries) =
    let most = max_pending entries in
    if ltb most (length entry.requests) then length entry.requests else most

abbrev pub at_risk : ℕ → String × SessionEntry → Bool
at_risk most (id, entry) =
    ltb 0 (length entry.requests) && (ltb 3 most && leb (most / 2) (length entry.requests))

-- `starvationRiskLocked`
unfoldable pub starvation_risk : List (String × SessionEntry) → List String
starvation_risk entries = map (λ e. e.0) (select (at_risk (max_pending entries)) entries)

-- The body of the loop of `checkFairness`.
unfoldable pub check_session : ℕ → ℕ → List String → String × SessionEntry → List FairnessViolation
check_session max_starvation now risk (id, entry) =
    let wait = now - entry.first_enqueue in
    let warning = ltb (max_starvation / 2) wait && leb wait max_starvation in
    if warning
    then (record {
      type = fairness_warning;
      session_id = id;
      wait_time = wait / 1000;
      risk_sessions = [];
      timestamp = now;
    })
      ∷ []
    else if ltb max_starvation wait
    then (record {
      type = fairness_violation;
      session_id = id;
      wait_time = wait / 1000;
      risk_sessions = risk;
      timestamp = now;
    })
      ∷ []
    else []

unfoldable pub check_sessions :
    ℕ → ℕ → List String → List (String × SessionEntry) → List FairnessViolation
check_sessions max_starvation now risk [] = []
check_sessions max_starvation now risk (e ∷ entries) =
    check_session max_starvation now risk e ++ check_sessions max_starvation now risk entries

-- `sid`
abbrev pub session_of : Request → String
session_of r = if str_eq r.session_id "" then "_global" else r.session_id

-- The entry of a session that the request opens, with the request appended.
abbrev pub opened : ℕ → Request → SessionEntry
opened now r = record { requests = r ∷ []; first_enqueue = now; total_served = 0; max_wait = 0 }

abbrev pub longer : Request → SessionEntry → SessionEntry
longer r entry = record entry { requests = entry.requests ++ r ∷ [] }

-- The two branches of `Enqueue`, with the steps after them.
abbrev pub open_session : ℕ → FairQueue → Request → FairQueue
open_session now q r = record q {
  order = q.order ++ session_of r ∷ [];
  sessions = insert (session_of r) (opened now r) q.sessions;
  total = q.total + 1;
}

abbrev pub extend_session : FairQueue → Request → SessionEntry → FairQueue
extend_session q r entry = record q {
  sessions = insert (session_of r) (longer r entry) q.sessions;
  total = q.total + 1;
}

abbrev pub append_request : ℕ → FairQueue → Request → FairQueue
append_request now q r = elim (lookup (session_of r) q.sessions) [
  | none ↦ open_session now q r
  | some entry ↦ extend_session q r entry
]

module _ (iterate : Assoc SessionEntry → List (String × SessionEntry)) where
  unfoldable pub check_fairness : ℕ → FairQueue → FairQueue × List FairnessViolation
  check_fairness now q =
      let found =
        check_sessions q.max_starvation now (starvation_risk (iterate q.sessions))
          (iterate q.sessions) in
      if ltb (now - q.last_check) 1000000000
      then (q, [])
      else (record q { last_check = now }, found)

  -- `Enqueue`; `none` is `ErrQueueFull`.
  unfoldable pub enqueue : ℕ → FairQueue → Request → Option (FairQueue × List FairnessViolation)
  enqueue now q r =
      if leb q.max_size q.total then none else some (check_fairness now (append_request now q r))

-- What a turn of `Dequeue` answers; an index out of range panics.
pub data Dequeued : Type 0 where
  got : FairQueue → Request → Dequeued
  nothing : FairQueue → Dequeued
  panicked : Dequeued
  out_of_fuel : Dequeued

-- `entry != nil && len(entry.requests) > 0`, with what the branch takes from the entry.
abbrev pub front_of : Option SessionEntry → Option (SessionEntry × Request × List Request)
front_of none = none
front_of (some entry) = elim entry.requests [ [] ↦ none | r ∷ rest ↦ some (entry, r, rest) ]

abbrev pub next_pos : FairQueue → ℕ
next_pos q = (q.pos + 1) % length q.order

-- The session's entry after a request is taken from it.
abbrev pub served : ℕ → SessionEntry → Request → List Request → SessionEntry
served now entry r rest = record entry {
  requests = rest;
  max_wait =
      if ltb entry.max_wait (now - r.timestamp_start)
      then now - r.timestamp_start
      else entry.max_wait;
  total_served = entry.total_served + 1;
}

-- The branch of `Dequeue` that serves a session.
unfoldable pub serve : ℕ → FairQueue → String → SessionEntry → Request → List Request → FairQueue
serve now q sid entry r [] =
    let order = take q.pos q.order ++ drop (q.pos + 1) q.order in
    record q {
      sessions = remove sid q.sessions;
      order = order;
      pos = if leb (length order) q.pos then 0 else q.pos;
      total = q.total - 1;
    }
serve now q sid entry r (s ∷ rest) = record q {
  sessions = insert sid (served now entry r (s ∷ rest)) q.sessions;
  pos = next_pos q;
  total = q.total - 1;
}

-- The loop of `Dequeue`, on fuel.
unfoldable pub scan : ℕ → ℕ → ℕ → FairQueue → Dequeued
scan now start zero q = out_of_fuel
scan now start (suc fuel) q =
    let later = scan now start fuel (record q { pos = next_pos q }) in
    let skipped = if next_pos q == start then nothing (record q { pos = next_pos q }) else later in
    if length q.order == 0 then nothing q else elim (get_elem? q.order q.pos) [
      | none ↦ panicked
      | some sid ↦ elim (front_of (lookup sid q.sessions)) [
        | none ↦ skipped
        | some (entry, r, rest) ↦ got (serve now q sid entry r rest) r
      ]
    ]

-- `Dequeue`, with one turn more than there are sessions.
unfoldable pub dequeue : ℕ → FairQueue → Dequeued
dequeue now q = if q.total == 0 then nothing q else scan now q.pos (suc (length q.order)) q
