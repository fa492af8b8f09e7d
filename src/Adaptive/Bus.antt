-- ===== src/Adaptive/Bus.antt =====
-- mek/internal/adaptctl/actionbus/bus.go. The endpoint is an interface over a state that the bus does
-- not see. `sort.Slice` is a parameter, for it may put actions of equal time in any order; so are the
-- times, and whether the context is done while the bus waits before an attempt.
pub mod Valid
pub mod Laws
pub mod Retries
pub mod Endpoints
use mathlib.Core.List.{foldl}
use ai_workstation_core.Base.{
  String, List, [], ◌∷◌, ◌++◌, Option, none, some, ℕ, zero, suc, ◌+◌, Bool, true, false, ◌&&◌, ◌||◌,
  not, if◌then◌else◌, ◌==◌, ltb, length, contains,
}
use ai_workstation_core.Base.Assoc.{Assoc, insert, has}
use ai_workstation_core.Adaptive.Feedback.{Action}

-- `Endpoint`: what `Deliver` does to the endpoint, and its error.
pub record Endpoint : Type 1 where
  pub State : Type 0
  pub deliver : State → Action → State × Option String

pub data DeliveryError : Type 0 where
  exhausted : (attempts : ℕ) (last : Option String) → DeliveryError
  context_done : DeliveryError

pub data PublishError : Type 0 where
  nil_endpoint : PublishError
  not_delivered : DeliveryError → PublishError

-- `isExpired`
abbrev pub is_expired : Action → ℕ → Bool
is_expired a now = if a.ttl == 0 then false else ltb (a.issued_at + a.ttl) now

-- The loop of `filterValid`; the second argument is `seen`.
unfoldable pub filter_valid : Assoc ℕ → List String → ℕ → List Action → List Action
filter_valid delivered seen now [] = []
filter_valid delivered seen now (a ∷ actions) =
    let dropped = filter_valid delivered seen now actions in
    let kept = a ∷ filter_valid delivered (a.id ∷ seen) now actions in
    if is_expired a now || has a.id delivered || contains seen a.id then dropped else kept

module _ (E : Endpoint) where
  -- The endpoint of the bus, the delivered identifiers with their times, and MaxAttempts.
  pub record Bus : Type 0 where
    pub endpoint : Option E.State
    pub delivered : Assoc ℕ
    pub max_attempts : ℕ

  -- The loop of `deliverWithRetry`, on the attempts that are left.
  unfoldable pub attempt_from :
      (ℕ → Bool) → ℕ → ℕ → Option String → E.State → Action → E.State × Option DeliveryError
  attempt_from cancelled zero attempt last s a = (s, some (exhausted attempt last))
  attempt_from cancelled (suc left) attempt last s a =
      if ltb 0 attempt && cancelled attempt
      then (s, some context_done)
      else elim (E.deliver s a).1 [
        | none ↦ ((E.deliver s a).0, none)
        | some x ↦ attempt_from cancelled left (attempt + 1) (some x) (E.deliver s a).0 a
      ]

  unfoldable pub deliver_with_retry :
      (ℕ → Bool) → ℕ → E.State → Action → E.State × Option DeliveryError
  deliver_with_retry cancelled max s a = attempt_from cancelled max 0 none s a

  -- The loop of `Publish`: the endpoint, the delivered identifiers, the count and the last error.
  pub record Progress : Type 0 where
    pub state : E.State
    pub delivered : Assoc ℕ
    pub count : ℕ
    pub last_error : Option DeliveryError

  module _ (cancelled : String → ℕ → Bool) (stamp : String → ℕ) (max : ℕ) where
    unfoldable pub deliver_action : Progress → Action → Progress
    deliver_action p a =
        let r = deliver_with_retry (cancelled a.id) max p.state a in
        elim r.1 [
          | none ↦ record p {
            state = r.0;
            delivered = insert a.id (stamp a.id) p.delivered;
            count = p.count + 1;
          }
          | some x ↦ record p { state = r.0; last_error = some x }
        ]

    unfoldable pub deliver_all : Progress → List Action → Progress
    deliver_all p actions = foldl deliver_action p actions

  pub record Published : Type 0 where
    pub bus : Bus
    pub count : ℕ
    pub error : Option PublishError

  abbrev pub finish : Bus → Progress → Published
  finish bus p = record {
    bus = record bus { endpoint = some p.state; delivered = p.delivered };
    count = p.count;
    error =
        if p.count == 0
        then elim p.last_error [ none ↦ none | some x ↦ some (not_delivered x) ]
        else none;
  }

  abbrev pub start_of : E.State → Bus → Progress
  start_of s bus = record { state = s; delivered = bus.delivered; count = 0; last_error = none }

  -- `Publish`
  unfoldable pub publish :
      (List Action → List Action)
      → (String → ℕ → Bool)
      → (String → ℕ)
      → ℕ
      → Bus
      → List Action
      → Published
  publish sort cancelled stamp now bus actions = elim bus.endpoint [
    | none ↦ record { bus = bus; count = 0; error = some nil_endpoint }
    | some s ↦
        let valid = sort (filter_valid bus.delivered [] now actions) in
        if length actions == 0
        then record { bus = bus; count = 0; error = none }
        else finish bus (deliver_all cancelled stamp bus.max_attempts (start_of s bus) valid)
  ]
