-- ===== src/Adaptive/Signal.antt =====
-- mek/internal/adaptctl/signal: the types of types.go, and classifier.go. The verdict and the
-- class that are the empty text, Go's zero value, are `unset` and `unclassified`.
pub mod Laws
use ai_workstation_core.Base.{
  String, List, [], ◌∷◌, Option, none, some, ℕ, zero, ◌+◌, Bool, true, false, ◌&&◌, ◌||◌, not,
  if◌then◌else◌, ◌==◌, ltb, length,
}

pub data State : Type 0 where
  all_pass partial_fail replay_divergence structural_fail drift_detected consistency_fail : State

pub data Verdict : Type 0 where
  unset pass fail divergence : Verdict

pub data DivergenceClass : Type 0 where
  unclassified structural temporal sequence unspecified : DivergenceClass

pub data Severity : Type 0 where
  low medium critical : Severity

pub record Source : Type 0 where
  pub execution_id : String
  pub project_ref : String
  pub rir_hash : String

pub record VerificationResult : Type 0 where
  pub kernel : Verdict
  pub journal : Verdict
  pub trace : Verdict
  pub replay : Verdict
  pub structural : Verdict
  pub consistency : Verdict

pub record Divergence : Type 0 where
  pub domain : String
  pub node_id : String
  pub expected : String
  pub actual : String

pub record Metrics : Type 0 where
  pub nodes_executed : ℕ
  pub nodes_failed : ℕ

pub record Drift : Type 0 where
  pub detected : Bool
  pub class : DivergenceClass
  pub severity : Severity

pub record Signal : Type 0 where
  pub id : String
  pub timestamp : ℕ
  pub source : Source
  pub verification : VerificationResult
  pub divergences : List Divergence
  pub metrics : Metrics
  pub drift : Option Drift
  pub state : State

abbrev pub is_fail : Verdict → Bool
is_fail fail = true
is_fail _ = false

abbrev pub is_divergence : Verdict → Bool
is_divergence divergence = true
is_divergence _ = false

abbrev pub is_critical : Severity → Bool
is_critical critical = true
is_critical _ = false

abbrev pub state_eq : State → State → Bool
state_eq all_pass all_pass = true
state_eq partial_fail partial_fail = true
state_eq replay_divergence replay_divergence = true
state_eq structural_fail structural_fail = true
state_eq drift_detected drift_detected = true
state_eq consistency_fail consistency_fail = true
state_eq _ _ = false

-- The verdicts of the list that are FAIL.
unfoldable pub fail_count : List Verdict → ℕ
fail_count [] = 0
fail_count (v ∷ vs) = let rest = fail_count vs in if is_fail v then rest + 1 else rest

abbrev pub drift_of : Option Drift → (Drift → Bool) → Bool
drift_of none test = false
drift_of (some d) test = d.detected && test d

-- `Classify`
unfoldable pub classify : VerificationResult → Option Drift → List Divergence → State
classify v drift divergences =
    if is_fail v.consistency
    then consistency_fail
    else if is_fail v.structural
    then structural_fail
    else if is_divergence v.replay
    then replay_divergence
    else if drift_of drift (λ d. is_critical d.severity)
    then drift_detected
    else if ltb 0 (fail_count (v.kernel ∷ v.journal ∷ v.trace ∷ v.replay ∷ v.structural ∷ []))
    then partial_fail
    else if drift_of drift (λ d. ltb 0 (length divergences))
    then drift_detected
    else all_pass

-- `SeverityFromDrift`
abbrev pub severity_from_drift : DivergenceClass → Severity
severity_from_drift structural = critical
severity_from_drift sequence = medium
severity_from_drift temporal = low
severity_from_drift _ = low

abbrev pub order : State → ℕ
order all_pass = 0
order partial_fail = 1
order drift_detected = 2
order replay_divergence = 3
order structural_fail = 4
order consistency_fail = 5

unfoldable pub is_degrading : State → State → Bool
is_degrading prev curr = ltb (order prev) (order curr)

unfoldable pub is_recovering : State → State → Bool
is_recovering prev curr = is_degrading curr prev

-- The methods `IsTerminal`, `IsDegraded` and `IsStable`.
unfoldable pub is_terminal : Signal → Bool
is_terminal s = state_eq s.state structural_fail || state_eq s.state consistency_fail

unfoldable pub is_degraded : Signal → Bool
is_degraded s =
    state_eq s.state partial_fail
    || state_eq s.state replay_divergence
    || state_eq s.state drift_detected

unfoldable pub is_stable : Signal → Bool
is_stable s = state_eq s.state all_pass
