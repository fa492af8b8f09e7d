-- ===== src/Adaptive/Bus/Retries.antt =====
-- The attempts of `deliverWithRetry`: mek/internal/adaptctl/actionbus/bus.go.
use ai_workstation_core.Base.{
  String, [], ◌∷◌, ◌++◌, Option, none, some, ℕ, zero, suc, ◌+◌, ◌≤◌, ◌<◌, Bool, false, ◌&&◌, ◌≡◌,
  refl, arith, ltb, if_rule, option_rule,
}
use ai_workstation_core.Adaptive.Feedback.{Action}
use ai_workstation_core.Adaptive.Bus.{
  Endpoint, DeliveryError, exhausted, context_done, attempt_from, deliver_with_retry,
}
use ai_workstation_core.Adaptive.Bus.Endpoints.{Failing, failing_endpoint}

module _ (E : Endpoint) (a : Action) where
  -- From the first state the endpoint refuses the action that many times in a row.
  pub data Refuses : E.State → ℕ → E.State → Type 0 where
    stop : {s : E.State} → Refuses s 0 s
    refused :
        {s t : E.State} {n : ℕ} (x : String)
        → (E.deliver s a).1 ≡ some x
        → Refuses (E.deliver s a).0 n t
        → Refuses s (suc n) t

  -- What an answer within so many attempts means: the endpoint took the action after less refusals;
  -- or it refused them all; or the context was done before that, after at least so many refusals.
  abbrev pub Outcome : ℕ → ℕ → E.State → E.State → Option DeliveryError → Type 0
  Outcome least max s end none =
      (n : ℕ) × (t : E.State) × (n < max)
      × Refuses s n t
      × ((E.deliver t a).1 ≡ none)
      × (end ≡ (E.deliver t a).0)
  Outcome least max s end (some (exhausted attempts last)) = Refuses s max end
  Outcome least max s end (some context_done) = (n : ℕ) × (least ≤ n) × (n < max) × Refuses s n end

  Outcome-refused :
      (least max : ℕ) (s end : E.State) (x : String) (r : Option DeliveryError)
      → (E.deliver s a).1 ≡ some x
      → Outcome least max (E.deliver s a).0 end r
      → Outcome (suc least) (suc max) s end r
  Outcome-refused least max s end x none e (n, t, le, tries, ok, at) =
      (suc n, t, omega arith, refused x e tries, ok, at)
  Outcome-refused least max s end x (some (exhausted k last)) e tries = refused x e tries
  Outcome-refused least max s end x (some context_done) e (n, pos, le, tries) =
      (suc n, omega arith, omega arith, refused x e tries)

  Outcome-weaken :
      (least max : ℕ) (s end : E.State) (r : Option DeliveryError)
      → Outcome (suc least) max s end r
      → Outcome least max s end r
  Outcome-weaken least max s end none o = o
  Outcome-weaken least max s end (some (exhausted k last)) o = o
  Outcome-weaken least max s end (some context_done) (n, pos, le, tries) =
      (n, omega arith, le, tries)

  module _ (cancelled : ℕ → Bool) where
    attempt_from-Outcome :
        (left attempt : ℕ) (last : Option String) (s : E.State)
        → Outcome 0 left s
            (attempt_from E cancelled left attempt last s a).0
            (attempt_from E cancelled left attempt last s a).1
    unfolding attempt_from
    attempt_from-Outcome zero attempt last s = stop
    attempt_from-Outcome (suc left) attempt last s =
        if_rule (λ (r : E.State × Option DeliveryError). Outcome 0 (suc left) s r.0 r.1)
          (ltb 0 attempt && cancelled attempt) (λ done. (0, omega arith, omega arith, stop))
          (λ go.
            option_rule (λ (r : E.State × Option DeliveryError). Outcome 0 (suc left) s r.0 r.1)
              (E.deliver s a).1 (λ ok. (0, s, omega arith, stop, ok, refl))
              (λ x bad. Outcome-weaken 0 (suc left) s _ _ (
                Outcome-refused 0 left s _ x _ bad
                  (attempt_from-Outcome left (attempt + 1) (some x) (E.deliver s a).0))))

    -- What a delivery answers, for any endpoint, action and limit: without an error, the endpoint has
    -- taken the action after fewer refusals than the limit, and its state is the one after that; on
    -- exhaustion it has refused the action exactly as often as the limit says; on a context that is
    -- done it has refused it fewer times than that, but at least once.
    pub deliver_with_retry-Outcome :
        (max : ℕ) (s : E.State)
        → Outcome 1 max s
            (deliver_with_retry E cancelled max s a).0
            (deliver_with_retry E cancelled max s a).1
    unfolding deliver_with_retry attempt_from
    deliver_with_retry-Outcome zero s = stop
    deliver_with_retry-Outcome (suc left) s =
        option_rule (λ (r : E.State × Option DeliveryError). Outcome 1 (suc left) s r.0 r.1)
          (E.deliver s a).1 (λ ok. (0, s, omega arith, stop, ok, refl))
          (λ x bad.
            Outcome-refused 0 left s _ x _ bad
              (attempt_from-Outcome left 1 (some x) (E.deliver s a).0))

attempt_from-delivers :
    (cancelled : ℕ → Bool) (left attempt : ℕ) (last : Option String) (f : Failing) (a : Action)
    → ((n : ℕ) → cancelled n ≡ false)
    → f.failed ≤ f.fail_count
    → f.fail_count < f.failed + left
    → attempt_from failing_endpoint cancelled left attempt last f a
      ≡ (record f { failed = f.fail_count + 1; delivered = f.delivered ++ a ∷ [] }, none)
unfolding attempt_from
attempt_from-delivers cancelled zero attempt last f a calm le enough = absurd (omega arith)
attempt_from-delivers cancelled (suc left) attempt last f a calm le enough =
    let again = record f { failed = f.failed + 1 } in
    ground (
      arith,
      calm attempt,
      attempt_from-delivers cancelled left (attempt + 1) (some "simulated failure") again a calm,
    )

-- The failing endpoint that has failed no more often than its fail count takes an action within the
-- attempts, without an error, if more attempts are allowed than it still has failures, and the context
-- is not done.
pub deliver_with_retry-failing_endpoint :
    (cancelled : ℕ → Bool) (max : ℕ) (f : Failing) (a : Action)
    → ((n : ℕ) → cancelled n ≡ false)
    → f.failed ≤ f.fail_count
    → f.fail_count < f.failed + max
    → deliver_with_retry failing_endpoint cancelled max f a
      ≡ (record f { failed = f.fail_count + 1; delivered = f.delivered ++ a ∷ [] }, none)
unfolding deliver_with_retry
deliver_with_retry-failing_endpoint cancelled max f a calm le enough =
    attempt_from-delivers cancelled max 0 none f a calm le enough
