-- ===== src/Adaptive/Signal/Laws.antt =====
-- The classification of verdicts, and the order of its states.
use ai_workstation_core.Base.{
  List, [], ◌∷◌, Option, ℕ, ◌<◌, Bool, true, false, ◌&&◌, ◌||◌, ◌≡◌, ◌↔◌, ◌⊎◌, inl, inr, arith,
  if◌then◌else◌, ltb, length, All,
}
use ai_workstation_core.Adaptive.Signal.{
  State, all_pass, partial_fail, replay_divergence, structural_fail, drift_detected,
  consistency_fail, Verdict, Drift, Divergence, VerificationResult, Signal, is_fail, is_divergence,
  is_critical, fail_count, drift_of, classify, order, is_degrading, is_recovering, is_terminal,
  is_degraded, is_stable,
}

-- Nothing speaks against the execution: no verdict is FAIL, the replay does not diverge, and no
-- drift was detected that is critical or has evidence.
abbrev pub Clean : VerificationResult → Option Drift → List Divergence → Type 0
Clean v drift divergences =
    (is_fail v.kernel ≡ false)
    × (is_fail v.journal ≡ false)
    × (is_fail v.trace ≡ false)
    × (is_fail v.replay ≡ false)
    × (is_fail v.structural ≡ false)
    × (is_fail v.consistency ≡ false)
    × (is_divergence v.replay ≡ false)
    × (drift_of drift (λ d. is_critical d.severity) ≡ false)
    × (drift_of drift (λ d. ltb 0 (length divergences)) ≡ false)

cascade_iff :
    (c s r d f e : Bool)
    → ((if c
          then consistency_fail
          else if s
          then structural_fail
          else if r
          then replay_divergence
          else if d
          then drift_detected
          else if f
          then partial_fail
          else if e
          then drift_detected
          else all_pass)
        ≡ all_pass)
      ↔ ((c ≡ false) × (s ≡ false) × (r ≡ false) × (d ≡ false) × (f ≡ false) × (e ≡ false))
cascade_iff c s r d f e = ground arith

fail_count_iff :
    (verdicts : List Verdict)
    → (ltb 0 (fail_count verdicts) ≡ false) ↔ All (λ v. is_fail v ≡ false) verdicts
unfolding fail_count
fail_count_iff [] = ground arith
fail_count_iff (v ∷ verdicts) = ground (arith, fail_count_iff verdicts)

compare_cases : (m n : ℕ) → (m < n) ⊎ (n < m) ⊎ (m ≡ n)
compare_cases m n = ground arith

order-injective : (a b : State) → order a ≡ order b → a ≡ b
order-injective a b h = ground arith

-- A verification is classified ALL_PASS exactly if nothing speaks against it.
pub classify-all_pass_iff :
    (v : VerificationResult) (drift : Option Drift) (divergences : List Divergence)
    → (classify v drift divergences ≡ all_pass) ↔ Clean v drift divergences
unfolding classify
classify-all_pass_iff v drift divergences =
    let verdicts = v.kernel ∷ v.journal ∷ v.trace ∷ v.replay ∷ v.structural ∷ [] in
    let tests =
      cascade_iff (is_fail v.consistency) (is_fail v.structural) (is_divergence v.replay)
        (drift_of drift (λ d. is_critical d.severity)) (ltb 0 (fail_count verdicts))
        (drift_of drift (λ d. ltb 0 (length divergences))) in
    let counts = fail_count_iff verdicts in
    (
      λ h.
          let (c, s, r, d, f, e) = tests.0 h in
          let (k, (j, (t, (p, _)))) = counts.0 f in (k, j, t, p, s, c, r, d, e),
      λ (k, j, t, p, s, c, r, d, e). tests.1 (c, s, r, d, counts.1 (k, (j, (t, (p, (s, tt))))), e),
    )

-- One state is degraded from another, recovered from it, or the same.
pub is_degrading-order :
    (a b c : State)
    → ((is_degrading a b ≡ true) ⊎ (is_recovering a b ≡ true) ⊎ (a ≡ b))
      × (is_degrading a b ≡ true → is_degrading b a ≡ false)
      × (is_degrading a b ≡ true → is_degrading b c ≡ true → is_degrading a c ≡ true)
unfolding is_degrading is_recovering
is_degrading-order a b c =
    (order_cases a b (compare_cases (order a) (order b)), ground arith, ground arith)
  where
    order_cases :
        (a b : State)
        → (order a < order b) ⊎ (order b < order a) ⊎ (order a ≡ order b)
        → (is_degrading a b ≡ true) ⊎ (is_degrading b a ≡ true) ⊎ (a ≡ b)
    order_cases a b (inl less) = inl (ground arith)
    order_cases a b (inr (inl more)) = inr (inl (ground arith))
    order_cases a b (inr (inr same)) = inr (inr (order-injective a b same))

-- A signal is terminal, degraded or stable, and only one of these.
pub is_terminal-partition :
    (s : Signal)
    → ((is_terminal s || is_degraded s || is_stable s) ≡ true)
      × ((is_terminal s && is_degraded s) ≡ false)
      × ((is_terminal s && is_stable s) ≡ false)
      × ((is_degraded s && is_stable s) ≡ false)
unfolding is_terminal is_degraded is_stable
is_terminal-partition s = ground arith
