-- ===== src/Retry.antt =====
-- runtime/mcp/contracts/retry.go and adapter.go: the retry budget, and the adapters that retry a call
-- and fall back to another. An adapter is an interface over a state that its caller does not see;
-- the budget that a context carries is shared, so a call answers it too. Delays are signed 64-bit
-- nanoseconds, with the maximum not negative; `rand.Int63n` panics on an argument that is not
-- positive, and its value is used only as a time to wait.
pub mod Budget
pub mod Attempts
use Prim.Native.String.{◌++◌ as text_append}
use ai_workstation_core.Base.{
  String, [], Option, none, some, ℕ, zero, suc, ◌+◌, ◌-◌, ◌*◌, ◌/◌, ◌%◌, ◌^◌, Bool, true, false,
  ◌&&◌, ◌||◌, not, if◌then◌else◌, ◌==◌, ltb, leb,
}
use ai_workstation_core.Base.Assoc.{Assoc, lookup_or, insert}

pub record RetryBudget : Type 0 where
  pub total_cap : ℕ
  pub total_used : ℕ
  pub per_tool_cap : ℕ
  pub tool_used : Assoc ℕ

-- `NewRetryBudget`, for a configuration that is not negative.
unfoldable pub new_retry_budget : ℕ → ℕ → RetryBudget
new_retry_budget total_budget per_tool_cap = record {
  total_cap = if total_budget == 0 then 3 else total_budget;
  total_used = 0;
  per_tool_cap = if per_tool_cap == 0 then 2 else per_tool_cap;
  tool_used = [];
}

abbrev pub used : RetryBudget → String → ℕ
used b tool = lookup_or tool b.tool_used 0

-- `TryConsume`
unfoldable pub try_consume : RetryBudget → String → RetryBudget × Bool
try_consume b tool =
    let consumed = record b {
      total_used = b.total_used + 1;
      tool_used = insert tool (used b tool + 1) b.tool_used;
    } in
    if leb b.total_cap b.total_used
    then (b, false)
    else if leb b.per_tool_cap (used b tool)
    then (b, false)
    else (consumed, true)

abbrev pub remaining : RetryBudget → ℕ
remaining b = b.total_cap - b.total_used

pub record McpRequest : Type 0 where
  pub id : String
  pub tool : String

pub record McpResponse : Type 0 where
  pub id : String
  pub success : Bool
  pub error : String

-- What a call answers: a response with an error, or it panics.
pub data Answer : Type 0 where
  returned : McpResponse → Option String → Answer
  panicked : Answer

-- `MCPAdapter`: `Execute` on the adapter's state and the budget of the context.
pub record Adapter : Type 1 where
  pub State : Type 0
  pub execute : State → RetryBudget → McpRequest → State × RetryBudget × Answer

pub record RetryConfig : Type 0 where
  pub max_retries : ℕ
  pub base_delay : ℕ
  pub max_delay : ℕ

-- `NewRetryAdapter`
abbrev pub retry_config : RetryConfig → RetryConfig
retry_config c = if c.max_retries == 0 then record c { max_retries = 2 } else c

-- The product of `jitteredDelay`, as the bits of a signed 64-bit integer.
abbrev pub scaled_delay : RetryConfig → ℕ → ℕ
scaled_delay c attempt = (c.base_delay * 2 ^ attempt) % 2 ^ 64

-- Does `jitteredDelay` panic? A negative product stays, and half of what it is must be positive.
abbrev pub jitter_panics : RetryConfig → ℕ → Bool
jitter_panics c attempt =
    let d = scaled_delay c attempt in
    if leb (2 ^ 63) d then true else if ltb c.max_delay d then c.max_delay / 2 == 0 else d / 2 == 0

abbrev pub failure : McpRequest → String → McpResponse
failure req text = record { id = req.id; success = false; error = text }

-- Does the answer stop the retries as a success?
abbrev pub is_success : Answer → Bool
is_success (returned resp none) = resp.success
is_success (returned resp (some x)) = false
is_success panicked = false

abbrev pub error_of : Answer → Option String
error_of (returned resp err) = err
error_of panicked = none

abbrev pub is_panic : Answer → Bool
is_panic (returned resp err) = false
is_panic panicked = true

-- The end of `RetryAdapter.Execute`, which reads the text of the last error.
abbrev pub exhausted : McpRequest → Option String → Answer
exhausted req none = panicked
exhausted req (some x) = returned (failure req (text_append "retry exhausted: " x)) (some x)

-- The condition before an attempt, with the budget after it.
abbrev pub allow : Bool → ℕ → RetryBudget → McpRequest → RetryBudget × Bool
allow has_budget attempt b req =
    if ltb 0 attempt && has_budget then try_consume b req.tool else (b, true)

module _ (inner : Adapter) (config : RetryConfig) (has_budget : Bool) where
  -- The loop of `RetryAdapter.Execute`, on the attempts that are left.
  unfoldable pub retry_from :
      ℕ
      → ℕ
      → Option String
      → inner.State
      → RetryBudget
      → McpRequest
      → inner.State × RetryBudget × Answer
  retry_from zero attempt last s b req = (s, b, exhausted req last)
  retry_from (suc left) attempt last s b req =
      let (allowed, go) = allow has_budget attempt b req in
      let (s1, b1, a) = inner.execute s allowed req in
      let rest = retry_from left (attempt + 1) (error_of a) s1 b1 req in
      if not go
      then (
        s,
        allowed,
        returned (failure req (text_append "retry budget exhausted for " req.tool)) last,
      )
      else if is_success a || is_panic a
      then (s1, b1, a)
      else if ltb attempt config.max_retries && jitter_panics config attempt
      then (s1, b1, panicked)
      else rest

  -- `RetryAdapter.Execute`
  unfoldable pub execute_retry :
      inner.State → RetryBudget → McpRequest → inner.State × RetryBudget × Answer
  execute_retry s b req = retry_from (config.max_retries + 1) 0 none s b req

  abbrev pub retry_adapter : Adapter
  retry_adapter = record { State = inner.State; execute = execute_retry }

-- `FallbackAdapter.Execute`
unfoldable pub execute_fallback :
    (inner fallback : Adapter)
    → inner.State × fallback.State
    → RetryBudget
    → McpRequest
    → (inner.State × fallback.State) × RetryBudget × Answer
execute_fallback inner fallback (s, t) b req =
    let (s1, b1, a) = inner.execute s b req in
    let (t1, b2, c) = fallback.execute t b1 req in
    if is_success a || is_panic a then ((s1, t), b1, a) else ((s1, t1), b2, c)

abbrev pub fallback_adapter : Adapter → Adapter → Adapter
fallback_adapter inner fallback = record {
  State = inner.State × fallback.State;
  execute = execute_fallback inner fallback;
}
