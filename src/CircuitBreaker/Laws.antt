-- ===== src/CircuitBreaker/Laws.antt =====
-- What holds of the breaker between calls.
use ai_workstation_core.Base.{ℕ, ◌≤◌, ◌<◌, ◌≢◌, arith}
use ai_workstation_core.CircuitBreaker.{
  CircuitState, closed, half_open, open_circuit, CircuitBreakerConfig, CircuitBreaker,
  new_circuit_breaker, rejected_half_open, probe, admit, Reply, settle, execute,
}

-- The state that calls one after another keep: closed with fewer failures in a row than the
-- threshold, or open with as many at least, never half open; the probe limit is not 0.
abbrev pub Between : CircuitState → ℕ → ℕ → Type 0
Between closed fails threshold = fails < threshold
Between half_open fails threshold = ⊥
Between open_circuit fails threshold = threshold ≤ fails

abbrev pub Settled : CircuitBreaker → Type 0
Settled cb =
    Between cb.state cb.consecutive_fail cb.config.failure_threshold
    × (0 < cb.config.failure_threshold)
    × (0 < cb.config.half_open_max_requests)

-- The state in which any number of clients leave the breaker.
abbrev pub WithinProbes : CircuitBreaker → Type 0
WithinProbes cb = cb.half_open_sent ≤ cb.config.half_open_max_requests

-- A new breaker is settled, whatever the configuration.
pub new_circuit_breaker-Settled :
    (config : CircuitBreakerConfig) → Settled (new_circuit_breaker config)
unfolding new_circuit_breaker
new_circuit_breaker-Settled config = (ground arith, ground arith, ground arith)

-- A call that no other interleaves keeps the breaker settled (closed below the failure threshold
-- or open at it, never half open, with positive limits), and does not meet the probe limit.
pub execute-Settled :
    (now : ℕ) (reply : Reply) (cb : CircuitBreaker)
    → Settled cb
    → Settled (execute now reply cb).0 × ((execute now reply cb).1 ≢ rejected_half_open)
unfolding execute admit probe settle
execute-Settled now reply cb s = (ground arith, ground arith)

-- If the count of probes is within the configured limit, it is after either part of a call, in any
-- state of the breaker: so the calls of several clients may interleave in any way.
pub interleaving-WithinProbes :
    (now : ℕ) (reply : Reply) (cb : CircuitBreaker)
    → WithinProbes cb
    → WithinProbes (admit now cb).0 × WithinProbes (settle reply cb)
unfolding admit probe settle
interleaving-WithinProbes now reply cb w = (ground arith, ground arith)
