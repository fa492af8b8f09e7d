-- ===== src/CircuitBreaker.antt =====
-- runtime/mcp/contracts/circuit_breaker.go. Times and durations are nanoseconds; a configured value
-- below 1 is 0 here. `Execute` holds the lock twice: `admit` is the part before the call of the inner
-- adapter and `settle` the part after it, so that the calls of several clients may interleave.
pub mod Laws
pub mod Rejecting
use ai_workstation_core.Base.{
  ℕ, zero, suc, ◌+◌, ◌-◌, ◌*◌, ◌^◌, Bool, true, false, ◌||◌, ◌&&◌, not, if◌then◌else◌, ◌==◌, ltb,
  leb,
}

pub data CircuitState : Type 0 where
  closed half_open open_circuit : CircuitState

pub record CircuitBreakerConfig : Type 0 where
  pub failure_threshold : ℕ
  pub latency_threshold : ℕ
  pub recovery_timeout : ℕ
  pub half_open_max_requests : ℕ

pub record CircuitBreaker : Type 0 where
  pub state : CircuitState
  pub consecutive_fail : ℕ
  pub last_failure_time : ℕ
  pub half_open_sent : ℕ
  pub config : CircuitBreakerConfig

abbrev pub or_default : ℕ → ℕ → ℕ
or_default n d = if n == 0 then d else n

unfoldable pub new_circuit_breaker : CircuitBreakerConfig → CircuitBreaker
new_circuit_breaker config = record {
  state = closed;
  consecutive_fail = 0;
  last_failure_time = 0;
  half_open_sent = 0;
  config = record {
    failure_threshold = or_default config.failure_threshold 5;
    latency_threshold = or_default config.latency_threshold 5000000000;
    recovery_timeout = or_default config.recovery_timeout 30000000000;
    half_open_max_requests = or_default config.half_open_max_requests 3;
  };
}

pub data Admission : Type 0 where
  passed rejected_open rejected_half_open : Admission

abbrev pub is_half_open : CircuitState → Bool
is_half_open half_open = true
is_half_open _ = false

-- The probe limit, and the count of a probe.
unfoldable pub probe : CircuitBreaker → CircuitBreaker × Admission
probe cb =
    if leb cb.config.half_open_max_requests cb.half_open_sent
    then (cb, rejected_half_open)
    else (record cb { half_open_sent = cb.half_open_sent + 1 }, passed)

-- `Execute` up to the call of the inner adapter.
unfoldable pub admit : ℕ → CircuitBreaker → CircuitBreaker × Admission
admit now cb = elim cb.state [
  | closed ↦ (cb, passed)
  | half_open ↦ probe cb
  | open_circuit ↦
      if ltb cb.config.recovery_timeout (now - cb.last_failure_time)
      then probe (record cb { state = half_open; half_open_sent = 0 })
      else (cb, rejected_open)
]

-- What the inner adapter answered: an error or no success, and how long it took.
pub record Reply : Type 0 where
  pub is_failure : Bool
  pub elapsed : ℕ
  pub finished_at : ℕ

abbrev pub failed_once : ℕ → CircuitBreaker → CircuitBreaker
failed_once now cb = record cb {
  consecutive_fail = cb.consecutive_fail + 1;
  last_failure_time = now;
}

abbrev pub trip_if : Bool → CircuitBreaker → CircuitBreaker
trip_if b cb = if b then record cb { state = open_circuit } else cb

-- `Execute` from the answer of the inner adapter on.
unfoldable pub settle : Reply → CircuitBreaker → CircuitBreaker
settle reply cb =
    let failed = failed_once reply.finished_at cb in
    let over = leb cb.config.failure_threshold (cb.consecutive_fail + 1) in
    if reply.is_failure
    then (if is_half_open cb.state
        then record failed { state = open_circuit; half_open_sent = 0 }
        else trip_if over failed)
    else if leb cb.config.latency_threshold reply.elapsed
    then trip_if over failed
    else record cb {
      state = if is_half_open cb.state then closed else cb.state;
      consecutive_fail = 0;
    }

-- `Execute`, while no other client calls.
unfoldable pub execute : ℕ → Reply → CircuitBreaker → CircuitBreaker × Admission
execute now reply cb = elim (admit now cb).1 [
  | passed ↦ (settle reply (admit now cb).0, passed)
  | rejected_open ↦ admit now cb
  | rejected_half_open ↦ admit now cb
]
