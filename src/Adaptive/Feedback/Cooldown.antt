-- ===== src/Adaptive/Feedback/Cooldown.antt =====
-- The cooldowns along the log of all actions.
use mathlib.Core.List.{append_assoc, append-nil}
use ai_workstation_core.Base.{
  String, List, [], ◌∷◌, ◌++◌, some, ℕ, ◌+◌, ◌≤◌, ◌<◌, true, false, ◌≡◌, sym, subst, inl, inr, ap,
  arith, str_eq, All, length, Option-cases,
}
use ai_workstation_core.Adaptive.Signal.{Signal}
use ai_workstation_core.Adaptive.Feedback.{
  Action, Rule, filter_by_state, is_in_cooldown, last_of, fires, action_of, evaluate_rule,
  evaluate_from, evaluate,
}
use ai_workstation_core.Adaptive.Feedback.Laws.{Fired-cases}

-- The later action of a rule with a cooldown comes when the cooldown since the earlier has passed.
abbrev pub Apart : Action → Action → Type 0
Apart a b = str_eq a.rule_id b.rule_id ≡ true → 0 < b.ttl → a.issued_at + b.ttl ≤ b.issued_at

-- The actions of a log, in their order, are apart two by two.
abbrev pub Spaced : List Action → Type 0
Spaced [] = Unit
Spaced (a ∷ log) = All (Apart a) log × Spaced log

All-snoc :
    (P : Action → Type 0) (l : List Action) (b : Action) → All P l → P b → All P (l ++ b ∷ [])
All-snoc P [] b h p = (p, tt)
All-snoc P (a ∷ l) b h p = (h.0, All-snoc P l b h.1 p)

Spaced-snoc :
    (log : List Action) (b : Action)
    → Spaced log
    → All (λ a. Apart a b) log
    → Spaced (log ++ b ∷ [])
Spaced-snoc [] b s h = (tt, tt)
Spaced-snoc (a ∷ log) b s h = (All-snoc (Apart a) log b s.0 h.0, Spaced-snoc log b s.1 h.1)

fires-injective : (a b : Action) → fires a ≡ fires b → a ≡ b
fires-injective a b h = cc h

module _ (action_id : String → String → ℕ → String) (history : List Signal) (now : ℕ) where
  -- An action that a rule answers is that rule's, of this time, and outside the rule's cooldown.
  evaluate_rule-fires :
      (rule : Rule) (prior : List Action) (a : Action)
      → evaluate_rule action_id rule history prior now ≡ fires a
      → (a.rule_id ≡ rule.id)
        × (a.issued_at ≡ now)
        × (a.ttl ≡ rule.cooldown)
        × (is_in_cooldown rule prior now ≡ false)
  unfolding evaluate_rule
  evaluate_rule-fires rule prior a e =
      elim (Option-cases (last_of (filter_by_state history rule now))) [
        | inl bad ↦ absurd (ground arith)
        | inr (s, last) ↦
            let matches = filter_by_state history rule now in
            let same =
              fires-injective a (action_of action_id rule s (length matches) now) (ground arith) in
            (
              ap (λ (x : Action). x.rule_id) same,
              ap (λ (x : Action). x.issued_at) same,
              ap (λ (x : Action). x.ttl) same,
              ground arith,
            )
      ]

  out_of_cooldown :
      (rule : Rule) (prior : List Action)
      → is_in_cooldown rule prior now ≡ false
      → (a : Action) → a.rule_id ≡ rule.id
      → a.issued_at ≡ now
      → a.ttl ≡ rule.cooldown
      → All (λ b. Apart b a) prior
  unfolding is_in_cooldown
  out_of_cooldown rule [] free a r i t = tt
  out_of_cooldown rule (b ∷ prior) free a r i t =
      (λ same positive. ground arith, out_of_cooldown rule prior (ground arith) a r i t)

  evaluate_from-Spaced :
      (rules : List Rule) (prior actions out : List Action)
      → Spaced (prior ++ actions)
      → evaluate_from action_id rules history prior actions now ≡ some out
      → Spaced (prior ++ out)
  unfolding evaluate_from
  evaluate_from-Spaced [] prior actions out s e = subst (λ l. Spaced (prior ++ l)) (cc e) s
  evaluate_from-Spaced (rule ∷ rules) prior actions out s e =
      elim (Fired-cases (evaluate_rule action_id rule history (prior ++ actions) now)) [
        | inl quiet ↦ evaluate_from-Spaced rules prior actions out s (ground arith)
        | inr (inr bad) ↦ absurd (ground arith)
        | inr (inl (a, fired)) ↦
            let (r, i, t, free) = evaluate_rule-fires rule (prior ++ actions) a fired in
            evaluate_from-Spaced rules prior (actions ++ a ∷ []) out
              (subst Spaced (append_assoc prior actions (a ∷ [])) (
                Spaced-snoc (prior ++ actions) a s
                  (out_of_cooldown rule (prior ++ actions) free a r i t)))
              (ground arith)
      ]

-- If the actions of the log so far keep to their cooldowns, they do together with those that an
-- evaluation answers, at any time: two actions of one rule with a cooldown are that far apart.
pub evaluate-Spaced :
    (action_id : String → String → ℕ → String) (rules : List Rule) (history : List Signal)
    (prior out : List Action) (now : ℕ)
    → Spaced prior
    → evaluate action_id rules history prior now ≡ some out
    → Spaced (prior ++ out)
unfolding evaluate
evaluate-Spaced action_id rules history prior out now s e =
    evaluate_from-Spaced action_id history now rules prior [] out
      (subst Spaced (sym (append-nil prior)) s) e
