-- ===== src/Adaptive/Bus/Endpoints.antt =====
-- The two endpoints of bus.go, `NoopEndpoint` and `FailingEndpoint`.
use ai_workstation_core.Base.{
  String, List, [], ◌∷◌, ◌++◌, Option, none, some, ℕ, ◌+◌, if◌then◌else◌, leb,
}
use ai_workstation_core.Adaptive.Feedback.{Action}
use ai_workstation_core.Adaptive.Bus.{Endpoint}

pub record Failing : Type 0 where
  pub fail_count : ℕ
  pub failed : ℕ
  pub delivered : List Action

-- The text of the error is shortened.
abbrev pub fail_first : Failing → Action → Failing × Option String
fail_first f a =
    if leb (f.failed + 1) f.fail_count
    then (record f { failed = f.failed + 1 }, some "simulated failure")
    else (record f { failed = f.failed + 1; delivered = f.delivered ++ a ∷ [] }, none)

abbrev pub failing_endpoint : Endpoint
failing_endpoint = record { State = Failing; deliver = fail_first }

abbrev pub noop_endpoint : Endpoint
noop_endpoint = record { State = List Action; deliver = λ s a. (s ++ a ∷ [], none) }
