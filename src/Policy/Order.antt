-- ===== src/Policy/Order.antt =====
-- The order of an engine's rules: runtime/policy/engine.go.
use mathlib.Core.List.{Perm}
use mathlib.Core.List.Perm
use ai_workstation_core.Base.{
  List, [], ◌∷◌, ℕ, zero, suc, ◌≤◌, ◌≡◌, refl, arith, ltb, length, All, if_rule,
}
use ai_workstation_core.Policy.{PolicyRule, exchange, exchange_all, new_policy_engine}

-- No rule stands before one of a smaller priority.
abbrev pub Sorted : List PolicyRule → Type 0
Sorted [] = Unit
Sorted (x ∷ rules) = All (λ (y : PolicyRule). x.priority ≤ y.priority) rules × Sorted rules

abbrev Holds : (PolicyRule → Type 0) → PolicyRule × List PolicyRule → Type 0
Holds P r = P r.0 × All P r.1

exchange-All :
    (P : PolicyRule → Type 0) (x : PolicyRule) (rules : List PolicyRule)
    → P x
    → All P rules
    → Holds P (exchange x rules)
unfolding exchange
exchange-All P x [] p h = (p, tt)
exchange-All P x (y ∷ rules) p h =
    let swapped = exchange-All P y rules h.0 h.1 in
    let stayed = exchange-All P x rules p h.1 in
    if_rule (Holds P) (ltb y.priority x.priority) (λ less. (swapped.0, (p, swapped.1)))
      (λ not_less. (stayed.0, (h.0, stayed.1)))

-- The rule that comes first has the least priority.
exchange-least :
    (x : PolicyRule) (rules : List PolicyRule)
    → ((exchange x rules).0.priority ≤ x.priority)
      × All (λ (y : PolicyRule). (exchange x rules).0.priority ≤ y.priority) (exchange x rules).1
unfolding exchange
exchange-least x [] = (omega arith, tt)
exchange-least x (y ∷ rules) =
    let swapped = exchange-least y rules in
    let stayed = exchange-least x rules in
    if_rule
      (λ (r : PolicyRule × List PolicyRule).
        (r.0.priority ≤ x.priority) × All (λ (z : PolicyRule). r.0.priority ≤ z.priority) r.1)
      (ltb y.priority x.priority) (λ less. (ground arith, (ground arith, swapped.1)))
      (λ not_less. (stayed.0, (ground arith, stayed.1)))

exchange-Perm :
    (x : PolicyRule) (rules : List PolicyRule)
    → Perm ((exchange x rules).0 ∷ (exchange x rules).1) (x ∷ rules)
unfolding exchange
exchange-Perm x [] = Perm.refl (x ∷ [])
exchange-Perm x (y ∷ rules) =
    let swapped = exchange y rules in
    let stayed = exchange x rules in
    if_rule (λ (r : PolicyRule × List PolicyRule). Perm (r.0 ∷ r.1) (x ∷ y ∷ rules))
      (ltb y.priority x.priority)
      (λ less. Perm.trans (Perm.swap x swapped.0 swapped.1) (Perm.cons x (exchange-Perm y rules)))
      (λ not_less.
        Perm.trans (Perm.swap y stayed.0 stayed.1)
          (Perm.trans (Perm.cons y (exchange-Perm x rules)) (Perm.swap x y rules)))

exchange-length :
    (x : PolicyRule) (rules : List PolicyRule) → length (exchange x rules).1 ≡ length rules
unfolding exchange
exchange-length x [] = refl
exchange-length x (y ∷ rules) = ground (arith, exchange-length y rules, exchange-length x rules)

exchange_all-All :
    (P : PolicyRule → Type 0) (fuel : ℕ) (rules : List PolicyRule)
    → All P rules
    → All P (exchange_all fuel rules)
unfolding exchange_all
exchange_all-All P zero rules h = h
exchange_all-All P (suc fuel) [] h = tt
exchange_all-All P (suc fuel) (x ∷ rules) h =
    let r = exchange-All P x rules h.0 h.1 in
    (r.0, exchange_all-All P fuel (exchange x rules).1 r.1)

exchange_all-Sorted :
    (fuel : ℕ) (rules : List PolicyRule) → length rules ≤ fuel → Sorted (exchange_all fuel rules)
unfolding exchange_all
exchange_all-Sorted zero [] h = tt
exchange_all-Sorted zero (x ∷ rules) h = absurd (omega (arith, h))
exchange_all-Sorted (suc fuel) [] h = tt
exchange_all-Sorted (suc fuel) (x ∷ rules) h =
    let (first, rest) = exchange x rules in
    (
      exchange_all-All (λ (y : PolicyRule). (exchange x rules).0.priority ≤ y.priority) fuel
          (exchange x rules).1 (exchange-least x rules).1,
      exchange_all-Sorted fuel (exchange x rules).1 (omega (arith, h, exchange-length x rules)),
    )

exchange_all-Perm : (fuel : ℕ) (rules : List PolicyRule) → Perm (exchange_all fuel rules) rules
unfolding exchange_all
exchange_all-Perm zero rules = Perm.refl rules
exchange_all-Perm (suc fuel) [] = Perm.refl []
exchange_all-Perm (suc fuel) (x ∷ rules) =
    Perm.trans (Perm.cons (exchange x rules).0 (exchange_all-Perm fuel (exchange x rules).1))
      (exchange-Perm x rules)

-- An engine has the rules that it is given, in some order of ascending priorities.
pub new_policy_engine-Sorted :
    (rules : List PolicyRule)
    → Sorted (new_policy_engine rules) × Perm (new_policy_engine rules) rules
unfolding new_policy_engine
new_policy_engine-Sorted rules =
    (exchange_all-Sorted (length rules) rules (omega arith), exchange_all-Perm (length rules) rules)

pub new_policy_engine-All :
    (P : PolicyRule → Type 0) (rules : List PolicyRule)
    → All P rules
    → All P (new_policy_engine rules)
unfolding new_policy_engine
new_policy_engine-All P rules h = exchange_all-All P (length rules) rules h
