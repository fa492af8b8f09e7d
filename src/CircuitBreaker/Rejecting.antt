-- ===== src/CircuitBreaker/Rejecting.antt =====
-- How a breaker can come to reject every request: runtime/mcp/contracts/circuit_breaker.go.
use ai_workstation_core.Base.{
  List, [], ◌∷◌, ◌++◌, ◌≤◌, ℕ, zero, suc, ◌+◌, ◌-◌, ◌<◌, true, false, ◌≡◌, refl, arith, subst,
}
use ai_workstation_core.CircuitBreaker.{
  CircuitState, closed, half_open, open_circuit, CircuitBreakerConfig, CircuitBreaker,
  new_circuit_breaker, Admission, passed, rejected_half_open, probe, admit, Reply, settle,
}

-- A breaker, the times at which the calls of its inner adapter began that have not answered yet, and
-- the time of the last event.
pub record Shared : Type 0 where
  pub breaker : CircuitBreaker
  pub under_way : List ℕ
  pub clock : ℕ

abbrev pub begun : Admission → ℕ → List ℕ → List ℕ
begun passed now starts = now ∷ starts
begun _ now starts = starts

-- What the clients of a breaker do, in any order, while time goes on: one calls `Execute`, or the
-- adapter answers one of the calls that are under way.
infix 50 ◌⇒*◌
pub data ◌⇒*◌ : Shared → Shared → Type 0 where
  rest : {s : Shared} → s ⇒* s
  calls :
      {s t : Shared}
      → s ⇒* t
      → (now : ℕ) → t.clock ≤ now
      → s ⇒* record {
        breaker = (admit now t.breaker).0;
        under_way = begun (admit now t.breaker).1 now t.under_way;
        clock = now;
      }
  answers :
      {s : Shared} {b : CircuitBreaker} (before after : List ℕ) (start clock : ℕ)
      → s ⇒* record { breaker = b; under_way = before ++ start ∷ after; clock = clock }
      → (reply : Reply) → clock ≤ reply.finished_at
      → start + reply.elapsed ≡ reply.finished_at
      → s ⇒* record {
        breaker = settle reply b;
        under_way = before ++ after;
        clock = reply.finished_at;
      }

abbrev pub fresh : CircuitBreakerConfig → Shared
fresh config = record { breaker = new_circuit_breaker config; under_way = []; clock = 0 }

abbrev failing : Reply
failing = record { is_failure = true; elapsed = 0; finished_at = 0 }

abbrev quick : Reply
quick = record { is_failure = false; elapsed = 0; finished_at = 0 }

-- A configuration with all its values set.
abbrev HasLimits : CircuitBreakerConfig → Type 0
HasLimits c = (0 < c.failure_threshold) × (0 < c.latency_threshold) × (0 < c.half_open_max_requests)

-- The time of the probes, and their slow answer.
abbrev probe_time : CircuitBreakerConfig → ℕ
probe_time c = c.recovery_timeout + 1

abbrev slow_reply : CircuitBreakerConfig → Reply
slow_reply c = record {
  is_failure = false;
  elapsed = c.latency_threshold;
  finished_at = probe_time c + c.latency_threshold;
}

abbrev in_state_of : CircuitBreakerConfig → CircuitState → ℕ → ℕ → ℕ → CircuitBreaker
in_state_of c state fails last sent = record {
  state = state;
  consecutive_fail = fails;
  last_failure_time = last;
  half_open_sent = sent;
  config = c;
}

-- A number of calls that began at one time.
abbrev times : ℕ → ℕ → List ℕ
times zero start = []
times (suc n) start = start ∷ times n start

module _ (c : CircuitBreakerConfig) (set : HasLimits c)
    (few : c.half_open_max_requests < c.failure_threshold) (s : Shared) where
  abbrev in_state : CircuitState → ℕ → ℕ → ℕ → CircuitBreaker
  in_state = in_state_of c

  abbrev Comes : CircuitBreaker → List ℕ → ℕ → Type 0
  Comes b starts clock = s ⇒* record { breaker = b; under_way = starts; clock = clock }

  answered :
      (b b' : CircuitBreaker) (reply : Reply) (start clock : ℕ) (starts : List ℕ)
      → settle reply b ≡ b'
      → clock ≤ reply.finished_at
      → start + reply.elapsed ≡ reply.finished_at
      → Comes b (start ∷ starts) clock
      → Comes b' starts reply.finished_at
  answered b b' reply start clock starts same later took r =
      subst (λ x. Comes x starts reply.finished_at) same
        (answers [] starts start clock r reply later took)

  called :
      (b b' : CircuitBreaker) (now clock : ℕ) (starts : List ℕ)
      → admit now b ≡ (b', passed)
      → clock ≤ now
      → Comes b starts clock
      → Comes b' (now ∷ starts) now
  called b b' now clock starts same later r =
      subst (λ x. Comes x.0 (begun x.1 now starts) now) same (calls r now later)

  -- With one call under way, others fail until the threshold is met.
  fails_open :
      (left fails : ℕ)
      → left + fails + 1 ≡ c.failure_threshold
      → Comes (in_state closed fails 0 0) (0 ∷ []) 0
      → Comes (in_state open_circuit c.failure_threshold 0 0) (0 ∷ []) 0
  unfolding admit settle
  fails_open zero fails now_met r =
      let b = in_state closed fails 0 0 in
      answered b (in_state open_circuit c.failure_threshold 0 0) failing 0 0 (0 ∷ []) (ground arith)
        (omega arith) (omega arith) (called b b 0 0 (0 ∷ []) refl (omega arith) r)
  fails_open (suc left) fails later r =
      let b = in_state closed fails 0 0 in
      fails_open left (fails + 1) (omega arith) (
        answered b (in_state closed (fails + 1) 0 0) failing 0 0 (0 ∷ []) (ground arith)
          (omega arith) (omega arith) (called b b 0 0 (0 ∷ []) refl (omega arith) r))

  -- The remaining probes are let through.
  probes :
      (left sent : ℕ)
      → left + sent ≡ c.half_open_max_requests
      → Comes (in_state half_open 0 0 sent) (times sent (probe_time c)) (probe_time c)
      → Comes
          (in_state half_open 0 0 c.half_open_max_requests)
          (times c.half_open_max_requests (probe_time c))
          (probe_time c)
  unfolding admit probe
  probes zero sent full r =
      let same : sent ≡ c.half_open_max_requests = omega arith in
      subst (λ n. Comes (in_state half_open 0 0 n) (times n (probe_time c)) (probe_time c)) same r
  probes (suc left) sent some_left r = probes left (suc sent) (omega arith) (
      called (in_state half_open 0 0 sent) (in_state half_open 0 0 (suc sent)) (probe_time c)
        (probe_time c) (times sent (probe_time c)) (ground arith) (omega arith) r)

  -- A half-open breaker with its probes used up, and no call under way.
  abbrev Exhausted : Type 0
  Exhausted =
      (last clock : ℕ) × Comes
        (in_state half_open c.half_open_max_requests last c.half_open_max_requests) [] clock

  -- The probes answer slowly.
  slow_answers :
      (left fails last clock : ℕ)
      → left + fails ≡ c.half_open_max_requests
      → clock ≤ probe_time c + c.latency_threshold
      → Comes
          (in_state half_open fails last c.half_open_max_requests)
          (times left (probe_time c))
          clock
      → Exhausted
  unfolding settle
  slow_answers zero fails last clock over early r =
      let same : fails ≡ c.half_open_max_requests = omega arith in
      (
        last,
        clock,
        subst (λ n. Comes (in_state half_open n last c.half_open_max_requests) [] clock) same r,
      )
  slow_answers (suc left) fails last clock later early r =
      let done = (slow_reply c).finished_at in
      slow_answers left (fails + 1) done done (omega arith) (omega arith) (
        answered (in_state half_open fails last c.half_open_max_requests)
          (in_state half_open (fails + 1) done c.half_open_max_requests) (slow_reply c)
          (probe_time c) clock (times left (probe_time c)) (ground arith) early refl r)

  new-Exhausted : Comes (in_state closed 0 0 0) [] 0 → Exhausted
  unfolding admit settle probe
  new-Exhausted start =
      let limit = c.half_open_max_requests in
      let fresh_state = in_state closed 0 0 0 in
      let entered = called fresh_state fresh_state 0 0 [] refl (omega arith) start in
      let opened = fails_open (c.failure_threshold - 1) 0 (omega arith) entered in
      let forgotten =
        answered (in_state open_circuit c.failure_threshold 0 0) (in_state open_circuit 0 0 0) quick
          0 0 [] (ground arith) (omega arith) (omega arith) opened in
      let first =
        called (in_state open_circuit 0 0 0) (in_state half_open 0 0 1) (probe_time c) 0 []
          (ground arith) (omega arith) forgotten in
      slow_answers limit 0 0 (probe_time c) (omega arith) (omega arith)
        (probes (limit - 1) 1 (omega arith) first)

-- If the probe limit is below the failure threshold, the clients of a new breaker can bring it, with
-- no call left under way, to a state in which it rejects each request at any time and does not
-- change.
pub new_circuit_breaker-stuck :
    (config : CircuitBreakerConfig)
    → (new_circuit_breaker config).config.half_open_max_requests
      < (new_circuit_breaker config).config.failure_threshold
    → (b : CircuitBreaker) × (clock : ℕ) × (fresh config
        ⇒* record { breaker = b; under_way = []; clock = clock })
      × ((now : ℕ) → admit now b ≡ (b, rejected_half_open))
unfolding new_circuit_breaker admit probe
new_circuit_breaker-stuck config few =
    let c = (new_circuit_breaker config).config in
    let (last, clock, comes) =
      new-Exhausted c (ground arith, ground arith, ground arith) few (fresh config) rest in
    (
      in_state_of c half_open c.half_open_max_requests last c.half_open_max_requests,
      clock,
      comes,
      λ now. ground arith,
    )
