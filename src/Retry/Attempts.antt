-- ===== src/Retry/Attempts.antt =====
-- The calls that the adapters make: runtime/mcp/contracts/adapter.go.
use ai_workstation_core.Base.{
  String, Option, none, some, ℕ, zero, suc, ◌+◌, ◌≤◌, ◌<◌, Bool, true, false, ◌≡◌, refl, arith, inl,
  inr, Bool-cases,
}
use ai_workstation_core.Retry.{
  RetryBudget, try_consume, McpRequest, Answer, returned, panicked, Adapter, RetryConfig,
  jitter_panics, is_success, is_panic, error_of, allow, retry_from, execute_retry, retry_adapter,
  execute_fallback,
}

-- An adapter that counts its calls.
abbrev pub counting : Adapter → Adapter
counting inner = record {
  State = ℕ × inner.State;
  execute = λ s b req. (
    (s.0 + 1, (inner.execute s.1 b req).0),
    (inner.execute s.1 b req).1,
    (inner.execute s.1 b req).2,
  );
}

module _ (inner : Adapter) (config : RetryConfig) (has_budget : Bool) where
  retry_from-bounded :
      (left attempt : ℕ) (last : Option String) (n : ℕ) (s : inner.State) (b : RetryBudget)
      (req : McpRequest)
      → (retry_from (counting inner) config has_budget left attempt last (n, s) b req).0.0
        ≤ n + left
  unfolding retry_from
  retry_from-bounded zero attempt last n s b req = omega arith
  retry_from-bounded (suc left) attempt last n s b req =
      let allowed = (allow has_budget attempt b req).0 in
      let (s1, b1, a) = inner.execute s allowed req in
      ground (arith, retry_from-bounded left (attempt + 1) (error_of a) (n + 1) s1 b1 req)

  module _
      (calm : (s : inner.State) (b : RetryBudget) (req : McpRequest)
        → (inner.execute s b req).1.total_used ≡ b.total_used) where
    retry_from-paid :
        (left attempt : ℕ) (last : Option String) (n : ℕ) (s : inner.State) (b : RetryBudget)
        (req : McpRequest)
        → has_budget ≡ true
        → 0 < attempt
        → (retry_from (counting inner) config has_budget left attempt last (n, s) b req).0.0
            + b.total_used
          ≤ n
            + (retry_from
                (counting inner)
                config
                has_budget
                left
                attempt
                last
                (n, s)
                b
                req).1.total_used
    unfolding retry_from try_consume
    retry_from-paid zero attempt last n s b req budget pos = omega arith
    retry_from-paid (suc left) attempt last n s b req budget pos =
        let allowed = (allow has_budget attempt b req).0 in
        let (s1, b1, a) = inner.execute s allowed req in
        ground (
          arith,
          calm s allowed req,
          retry_from-paid left (attempt + 1) (error_of a) (n + 1) s1 b1 req,
        )

  -- An execution calls the inner adapter at most once more than the retries allowed.
  pub execute_retry-bounded :
      (n : ℕ) (s : inner.State) (b : RetryBudget) (req : McpRequest)
      → (execute_retry (counting inner) config has_budget (n, s) b req).0.0
        ≤ n + config.max_retries + 1
  unfolding execute_retry
  execute_retry-bounded n s b req =
      omega (arith, retry_from-bounded (config.max_retries + 1) 0 none n s b req)

  -- With a budget in the context that the inner adapter leaves alone, every call after the first of
  -- an execution is paid from the budget.
  pub execute_retry-paid :
      (n : ℕ) (s : inner.State) (b : RetryBudget) (req : McpRequest)
      → has_budget ≡ true
      → ((t : inner.State) (c : RetryBudget) (r : McpRequest)
          → (inner.execute t c r).1.total_used ≡ c.total_used)
      → (execute_retry (counting inner) config has_budget (n, s) b req).0.0 + b.total_used
        ≤ n + 1 + (execute_retry (counting inner) config has_budget (n, s) b req).1.total_used
  unfolding execute_retry retry_from
  execute_retry-paid n s b req budget calm =
      let (s1, b1, a) = inner.execute s b req in
      ground (
        arith,
        calm s b req,
        retry_from-paid calm config.max_retries 1 (error_of a) (n + 1) s1 b1 req budget,
      )

-- A failure that the adapter answers as a response without an error.
abbrev pub IsSilent : Answer → Type 0
IsSilent (returned resp none) = resp.success ≡ false
IsSilent (returned resp (some x)) = ⊥
IsSilent panicked = ⊥

-- A failure that comes with an error, or a success.
abbrev pub IsLoud : Answer → Type 0
IsLoud (returned resp none) = resp.success ≡ true
IsLoud (returned resp (some x)) = Unit
IsLoud panicked = ⊥

silent-facts :
    (a : Answer) → IsSilent a → (is_success a ≡ false) × (error_of a ≡ none) × (is_panic a ≡ false)
silent-facts (returned resp none) h = (h, refl, refl)
silent-facts (returned resp (some x)) h = elim h [ ]
silent-facts panicked h = elim h [ ]

loud-facts :
    (a : Answer)
    → IsLoud a
    → (is_panic a ≡ false)
      × (is_success a ≡ true → error_of a ≡ none)
      × (is_success a ≡ false → (x : String) × (error_of a ≡ some x))
loud-facts (returned resp none) h = (refl, λ s. refl, λ f. absurd (ground arith))
loud-facts (returned resp (some x)) h = (refl, λ s. absurd (cc s), λ f. (x, refl))
loud-facts panicked h = elim h [ ]

module _ (inner : Adapter) (config : RetryConfig) (req : McpRequest) where
  retry_from-silent :
      (silent : (s : inner.State) (b : RetryBudget) → IsSilent (inner.execute s b req).2)
      (left attempt : ℕ) (s : inner.State) (b : RetryBudget)
      → (retry_from inner config false left attempt none s b req).2 ≡ panicked
  unfolding retry_from
  retry_from-silent silent zero attempt s b = refl
  retry_from-silent silent (suc left) attempt s b =
      let (s1, b1, a) = inner.execute s b req in
      ground (
        arith,
        silent-facts (inner.execute s b req).2 (silent s b),
        retry_from-silent silent left (attempt + 1) (inner.execute s b req).0
            (inner.execute s b req).1,
      )

  -- Without a budget in the context, if the inner adapter answers the request every time with a
  -- failed response and no error, the execution panics.
  pub execute_retry-silent :
      ((s : inner.State) (b : RetryBudget) → IsSilent (inner.execute s b req).2)
      → (s : inner.State) (b : RetryBudget)
      → (execute_retry inner config false s b req).2 ≡ panicked
  unfolding execute_retry
  execute_retry-silent silent s b = retry_from-silent silent (config.max_retries + 1) 0 s b

  retry_from-loud :
      (has_budget : Bool)
      (loud : (s : inner.State) (b : RetryBudget) → IsLoud (inner.execute s b req).2)
      (jitter : (n : ℕ) → n < config.max_retries → jitter_panics config n ≡ false)
      (left attempt : ℕ) (last : Option String) (s : inner.State) (b : RetryBudget)
      → (left ≡ 0 → (x : String) × (last ≡ some x))
      → is_panic (retry_from inner config has_budget left attempt last s b req).2 ≡ false
  unfolding retry_from
  retry_from-loud has_budget loud jitter zero attempt last s b h =
      let (x, e) = h refl in ground (arith, e)
  retry_from-loud has_budget loud jitter (suc left) attempt last s b h =
      let allowed = (allow has_budget attempt b req).0 in
      let a = (inner.execute s allowed req).2 in
      let (calm, quiet, texts) = loud-facts a (loud s allowed) in
      elim (Bool-cases (is_success a)) [
        | inl good ↦ ground (arith, good, calm)
        | inr bad ↦ ground (
          arith,
          bad,
          calm,
          jitter attempt,
          retry_from-loud has_budget loud jitter left (attempt + 1) (error_of a)
              (inner.execute s allowed req).0 (inner.execute s allowed req).1 (λ e. texts bad),
        )
      ]

  -- If every failure of the inner adapter at the request comes with an error, and no retry's delay
  -- makes the jitter panic, then the execution answers without a panic, with or without a budget.
  pub execute_retry-returns :
      (has_budget : Bool)
      → ((s : inner.State) (b : RetryBudget) → IsLoud (inner.execute s b req).2)
      → ((n : ℕ) → n < config.max_retries → jitter_panics config n ≡ false)
      → (s : inner.State) (b : RetryBudget)
      → is_panic (execute_retry inner config has_budget s b req).2 ≡ false
  unfolding execute_retry
  execute_retry-returns has_budget loud jitter s b =
      retry_from-loud has_budget loud jitter (config.max_retries + 1) 0 none s b
        (λ bad. absurd (omega (arith, bad)))

-- An inner adapter whose failures all come with errors, retried and with a fallback that succeeds at
-- the request in every state, answers the request with a success, whatever the budget is.
pub execute_fallback-retry :
    (inner fallback : Adapter) (config : RetryConfig) (has_budget : Bool) (req : McpRequest)
    → ((s : inner.State) (b : RetryBudget) → IsLoud (inner.execute s b req).2)
    → ((n : ℕ) → n < config.max_retries → jitter_panics config n ≡ false)
    → ((t : fallback.State) (b : RetryBudget) → is_success (fallback.execute t b req).2 ≡ true)
    → (s : inner.State) (t : fallback.State) (b : RetryBudget)
    → is_success (execute_fallback (retry_adapter inner config has_budget) fallback (s, t) b req).2
      ≡ true
unfolding execute_fallback
execute_fallback-retry inner fallback config has_budget req loud jitter covers s t b =
    let r = execute_retry inner config has_budget s b req in
    ground (arith, execute_retry-returns inner config req has_budget loud jitter s b, covers t r.1)
