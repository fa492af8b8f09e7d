-- ===== src/Adaptive/Feedback/Laws.antt =====
-- Which signals a rule counts, and when it fires.
use mathlib.Core.List.{append-nil, Memᴰ}
use ai_workstation_core.Base.{
  String, List, [], ◌∷◌, ◌++◌, some, ℕ, ◌+◌, ◌<◌, Bool, true, ◌&&◌, ◌||◌, ◌≡◌, ◌≢◌, ◌↔◌, ◌⊎◌, inl,
  inr, refl, sym, subst, ◌∙◌, arith, if_rule, ltb, length, select, any, All,
}
use ai_workstation_core.Adaptive.Signal.{State, structural_fail, consistency_fail, state_eq, Signal}
use ai_workstation_core.Adaptive.Feedback.{
  ActionType, notify, reexecute, escalate, halt, Action, Rule, is_recent, consecutive, reverse_onto,
  keep_consecutive, filter_by_state, is_in_cooldown, last_of, Fired, silent, fires, panics,
  action_of, evaluate_rule, evaluate_from, evaluate, has_action_type, type_eq, builtin_rules,
  minute, rule_of,
}

abbrev HasState : State → List Signal → Type 0
HasState state = All (λ (s : Signal). state_eq s.state state ≡ true)

reverse_onto-HasState :
    (state : State) (l acc : List Signal)
    → HasState state l
    → HasState state acc
    → HasState state (reverse_onto l acc)
reverse_onto-HasState state [] acc h k = k
reverse_onto-HasState state (s ∷ l) acc h k = reverse_onto-HasState state l (s ∷ acc) h.1 (h.0, k)

select-HasState :
    (rule : Rule) (now : ℕ) (history : List Signal)
    → HasState rule.state (select (is_recent rule now) history)
select-HasState rule now [] = tt
select-HasState rule now (s ∷ history) = ground (arith, select-HasState rule now history)

consecutive-all :
    (state : State) (l acc : List Signal)
    → HasState state l
    → consecutive state l acc ≡ reverse_onto l acc
unfolding consecutive
consecutive-all state [] acc h = refl
consecutive-all state (s ∷ l) acc h = ground (arith, consecutive-all state l (s ∷ acc))

reverse_onto-involutive :
    (l acc rest : List Signal)
    → reverse_onto (reverse_onto l acc) rest ≡ reverse_onto acc (l ++ rest)
reverse_onto-involutive [] acc rest = refl
reverse_onto-involutive (s ∷ l) acc rest = reverse_onto-involutive l (s ∷ acc) rest

keep_consecutive-all :
    (state : State) (l : List Signal)
    → HasState state l
    → keep_consecutive state l ≡ reverse_onto l []
keep_consecutive-all state [] h = refl
keep_consecutive-all state (last ∷ earlier) h = consecutive-all state earlier (last ∷ []) h.1

-- The matches of a rule are all signals of its state in its window: the loop that is to keep the
-- consecutive ones drops none, whatever signals of other states stand between them.
pub filter_by_state-select :
    (history : List Signal) (rule : Rule) (now : ℕ)
    → filter_by_state history rule now ≡ select (is_recent rule now) history
unfolding filter_by_state
filter_by_state-select history rule now =
    let matches = select (is_recent rule now) history in
    if_rule (λ l. l ≡ matches) (ltb 1 (length matches))
      (λ _.
        keep_consecutive-all rule.state (reverse_onto matches [])
          (reverse_onto-HasState rule.state matches [] (select-HasState rule now history) tt)
        ∙ reverse_onto-involutive matches [] []
        ∙ append-nil matches)
      (λ _. refl)

last_of-some : (l : List Signal) → 0 < length l → (s : Signal) × (last_of l ≡ some s)
last_of-some [] h = absurd (omega arith)
last_of-some (s ∷ []) h = (s, refl)
last_of-some (s ∷ t ∷ l) h = last_of-some (t ∷ l) (omega arith)

-- A rule that asks for an occurrence at least never indexes an empty list; it is silent exactly if
-- too few recent signals have its state or it is in its cooldown.
pub evaluate_rule-silent_iff :
    (action_id : String → String → ℕ → String) (rule : Rule) (history : List Signal)
    (prior : List Action) (now : ℕ)
    → 0 < rule.min_occurrences
    → (evaluate_rule action_id rule history prior now ≢ panics)
      × ((evaluate_rule action_id rule history prior now ≡ silent) ↔ (
          (length (select (is_recent rule now) history) < rule.min_occurrences)
          ⊎ (is_in_cooldown rule prior now ≡ true)))
unfolding evaluate_rule
evaluate_rule-silent_iff action_id rule history prior now positive =
    let same = filter_by_state-select history rule now in
    let last = last_of-some (filter_by_state history rule now) in
    (λ h. ground arith, (λ h. ground arith, λ h. ground arith))

pub Fired-cases : (f : Fired) → (f ≡ silent) ⊎ ((a : Action) × (f ≡ fires a)) ⊎ (f ≡ panics)
Fired-cases silent = inl refl
Fired-cases (fires a) = inr (inl (a, refl))
Fired-cases panics = inr (inr refl)

has_action_type-append :
    (t : ActionType) (l m : List Action)
    → has_action_type l t ≡ true
    → has_action_type (l ++ m) t ≡ true
unfolding has_action_type
has_action_type-append t [] m h = absurd (cc h)
has_action_type-append t (a ∷ l) m h = ground (arith, has_action_type-append t l m)

type_eq_refl : (t : ActionType) → type_eq t t ≡ true
type_eq_refl notify = refl
type_eq_refl reexecute = refl
type_eq_refl escalate = refl
type_eq_refl halt = refl

has_action_type-snoc : (l : List Action) (a : Action) → has_action_type (l ++ a ∷ []) a.type ≡ true
unfolding has_action_type
has_action_type-snoc [] a = ground (arith, type_eq_refl a.type)
has_action_type-snoc (b ∷ l) a = ground (arith, has_action_type-snoc l a)

module _ (action_id : String → String → ℕ → String) (history : List Signal) (prior : List Action)
    (now : ℕ) where
  -- If every rule asks for an occurrence at least, the evaluation answers.
  pub evaluate_from_total :
      (rules : List Rule) (actions : List Action)
      → All (λ (r : Rule). 0 < r.min_occurrences) rules
      → (out : List Action) × (evaluate_from action_id rules history prior actions now ≡ some out)
  unfolding evaluate_from
  evaluate_from_total [] actions h = (actions, refl)
  evaluate_from_total (rule ∷ rules) actions h =
      elim (Fired-cases (evaluate_rule action_id rule history (prior ++ actions) now)) [
        | inl quiet ↦ let (out, e) = evaluate_from_total rules actions h.1 in (out, ground arith)
        | inr (inl (a, fired)) ↦
            let (out, e) = evaluate_from_total rules (actions ++ a ∷ []) h.1 in (out, ground arith)
        | inr (inr bad) ↦
            absurd
              ((evaluate_rule-silent_iff action_id rule history (prior ++ actions) now h.0).0 bad)
      ]

  -- The actions that were made stay among those that are answered.
  evaluate_from-keeps :
      (rules : List Rule) (actions out : List Action) (t : ActionType)
      → evaluate_from action_id rules history prior actions now ≡ some out
      → has_action_type actions t ≡ true
      → has_action_type out t ≡ true
  unfolding evaluate_from
  evaluate_from-keeps [] actions out t e h = ground arith
  evaluate_from-keeps (rule ∷ rules) actions out t e h =
      elim (Fired-cases (evaluate_rule action_id rule history (prior ++ actions) now)) [
        | inl quiet ↦ evaluate_from-keeps rules actions out t (ground arith) h
        | inr (inl (a, fired)) ↦
            evaluate_from-keeps rules (actions ++ a ∷ []) out t (ground arith)
              (has_action_type-append t actions (a ∷ []) h)
        | inr (inr bad) ↦ absurd (ground arith)
      ]

  -- A rule without a cooldown that asks for one occurrence fires at every match.
  fires_at_once :
      (rule : Rule) (actions : List Action)
      → rule.cooldown ≡ 0
      → rule.min_occurrences ≡ 1
      → 0 < length (select (is_recent rule now) history)
      → (a : Action) × (evaluate_rule action_id rule history actions now ≡ fires a)
        × (a.type ≡ rule.action_type)
  unfolding evaluate_rule is_in_cooldown
  fires_at_once rule actions none_set once some_match =
      let (s, last) = last_of-some (select (is_recent rule now) history) some_match in
      let same = filter_by_state-select history rule now in
      (
        action_of action_id rule s (length (filter_by_state history rule now)) now,
        ground arith,
        refl,
      )

  -- So the answer has an action of its type.
  evaluate_from-fires :
      (rule : Rule) (rules : List Rule) (actions out : List Action)
      → Memᴰ rule rules
      → rule.cooldown ≡ 0
      → rule.min_occurrences ≡ 1
      → 0 < length (select (is_recent rule now) history)
      → evaluate_from action_id rules history prior actions now ≡ some out
      → has_action_type out rule.action_type ≡ true
  unfolding evaluate_from
  evaluate_from-fires rule [] actions out none_there c m k e = elim none_there [ ]
  evaluate_from-fires rule (r ∷ rules) actions out (Memᴰ.head same) c m k e =
      let (a, fired, type) = fires_at_once rule (prior ++ actions) c m k in
      let e' =
        subst (λ q. evaluate_from action_id (q ∷ rules) history prior actions now ≡ some out)
          (sym same) e in
      evaluate_from-keeps rules (actions ++ a ∷ []) out rule.action_type (ground arith) (
        subst (λ t. has_action_type (actions ++ a ∷ []) t ≡ true) type
          (has_action_type-snoc actions a))
  evaluate_from-fires rule (r ∷ rules) actions out (Memᴰ.tail later) c m k e =
      elim (Fired-cases (evaluate_rule action_id r history (prior ++ actions) now)) [
        | inl quiet ↦ evaluate_from-fires rule rules actions out later c m k (ground arith)
        | inr (inl (a, fired)) ↦
            evaluate_from-fires rule rules (actions ++ a ∷ []) out later c m k (ground arith)
        | inr (inr bad) ↦ absurd (ground arith)
      ]

abbrev is_emergency : ℕ → Signal → Bool
is_emergency now s =
    (state_eq s.state structural_fail || state_eq s.state consistency_fail)
    && ltb now (s.timestamp + minute)

abbrev r03 : Rule
r03 = rule_of "R03" structural_fail 1 minute halt "app://dependent-ops" 0

abbrev r06 : Rule
r06 = rule_of "R06" consistency_fail 1 minute halt "app://all-workflows" 0

emergency-matches :
    (now : ℕ) (history : List Signal)
    → any (is_emergency now) history ≡ true
    → (0 < length (select (is_recent r03 now) history))
      ⊎ (0 < length (select (is_recent r06 now) history))
emergency-matches now [] h = absurd (cc h)
emergency-matches now (s ∷ history) h = ground (arith, emergency-matches now history)

-- With the built-in rules the evaluation answers, and if a signal of the last minute is a structural
-- or a consistency failure, there is an action HALT among the answers, whatever actions went before.
pub evaluate-halts :
    (action_id : String → String → ℕ → String) (history : List Signal) (prior : List Action)
    (now : ℕ)
    → any (is_emergency now) history ≡ true
    → (out : List Action) × (evaluate action_id builtin_rules history prior now ≡ some out)
      × (has_action_type out halt ≡ true)
unfolding evaluate
evaluate-halts action_id history prior now emergency =
    let (out, e) = evaluate_from_total action_id history prior now builtin_rules [] (
      omega arith,
      (omega arith, (omega arith, (omega arith, (omega arith, (omega arith, tt))))),
    ) in
    (
      out,
      e,
      elim (emergency-matches now history emergency) [
        | inl k ↦
            evaluate_from-fires action_id history prior now r03 builtin_rules [] out
              (Memᴰ.tail (Memᴰ.tail (Memᴰ.head refl))) refl refl k e
        | inr k ↦
            evaluate_from-fires action_id history prior now r06 builtin_rules [] out
              (Memᴰ.tail (Memᴰ.tail (Memᴰ.tail (Memᴰ.tail (Memᴰ.tail (Memᴰ.head refl)))))) refl refl
              k e
      ],
    )
