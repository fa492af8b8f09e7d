-- ===== src/Adaptive/Feedback.antt =====
-- mek/internal/adaptctl/feedback: the rules (types.go, builtin.go) and their evaluation
-- (evaluator.go). Times and durations are nanoseconds; `t.After(now.Add(-d))` reads `now < t + d`. The
-- text of an action's identifier, which the source prints, is a parameter; the payload holds the
-- values that are printed.
pub mod Laws
pub mod Cooldown
use ai_workstation_core.Base.{
  String, List, [], ◌∷◌, ◌++◌, Option, none, some, ℕ, zero, suc, ◌+◌, ◌*◌, ◌/◌, Bool, true, false,
  ◌&&◌, not, if◌then◌else◌, ◌==◌, ltb, str_eq, length, select, any,
}
use ai_workstation_core.Adaptive.Signal.{
  State, all_pass, replay_divergence, structural_fail, drift_detected, consistency_fail, state_eq,
  Signal,
}

pub data ActionType : Type 0 where
  notify reexecute escalate halt : ActionType

abbrev pub type_eq : ActionType → ActionType → Bool
type_eq notify notify = true
type_eq reexecute reexecute = true
type_eq escalate escalate = true
type_eq halt halt = true
type_eq _ _ = false

pub record Payload : Type 0 where
  pub signal_state : State
  pub occurrences : ℕ
  pub window : ℕ
  pub trigger_timestamp : ℕ

pub record Action : Type 0 where
  pub id : String
  pub type : ActionType
  pub signal_id : String
  pub rule_id : String
  pub target : String
  pub payload : Payload
  pub issued_at : ℕ
  pub ttl : ℕ

pub record Rule : Type 0 where
  pub id : String
  pub state : State
  pub min_occurrences : ℕ
  pub window : ℕ
  pub action_type : ActionType
  pub target : String
  pub cooldown : ℕ

abbrev pub is_recent : Rule → ℕ → Signal → Bool
is_recent rule now s = state_eq s.state rule.state && ltb now (s.timestamp + rule.window)

-- The loop from the last match but one down: `matches` reversed, without its head.
unfoldable pub consecutive : State → List Signal → List Signal → List Signal
consecutive state [] acc = acc
consecutive state (s ∷ earlier) acc =
    let rest = consecutive state earlier (s ∷ acc) in if state_eq s.state state then rest else acc

abbrev pub reverse_onto : List Signal → List Signal → List Signal
reverse_onto [] acc = acc
reverse_onto (s ∷ l) acc = reverse_onto l (s ∷ acc)

-- The last match, and those before it for as long as they have the state.
abbrev pub keep_consecutive : State → List Signal → List Signal
keep_consecutive state [] = []
keep_consecutive state (last ∷ earlier) = consecutive state earlier (last ∷ [])

-- `filterByState`
unfoldable pub filter_by_state : List Signal → Rule → ℕ → List Signal
filter_by_state history rule now =
    let matches = select (is_recent rule now) history in
    if ltb 1 (length matches)
    then keep_consecutive rule.state (reverse_onto matches [])
    else matches

-- `isInCooldown`
unfoldable pub is_in_cooldown : Rule → List Action → ℕ → Bool
is_in_cooldown rule actions now =
    if rule.cooldown == 0
    then false
    else any (λ a. str_eq a.rule_id rule.id && ltb now (a.issued_at + rule.cooldown)) actions

abbrev pub last_of : List Signal → Option Signal
last_of [] = none
last_of (s ∷ []) = some s
last_of (s ∷ t ∷ l) = last_of (t ∷ l)

-- What a rule answers; `panics` is the index of the last of no matches.
pub data Fired : Type 0 where
  silent : Fired
  fires : Action → Fired
  panics : Fired

module _ (action_id : String → String → ℕ → String) where
  abbrev pub action_of : Rule → Signal → ℕ → ℕ → Action
  action_of rule trigger occurrences now = record {
    id = action_id rule.id trigger.id (now / 1000000);
    type = rule.action_type;
    signal_id = trigger.id;
    rule_id = rule.id;
    target = rule.target;
    payload = record {
      signal_state = trigger.state;
      occurrences = occurrences;
      window = rule.window;
      trigger_timestamp = trigger.timestamp;
    };
    issued_at = now;
    ttl = rule.cooldown;
  }

  unfoldable pub evaluate_rule : Rule → List Signal → List Action → ℕ → Fired
  evaluate_rule rule history prior now =
      let matches = filter_by_state history rule now in
      if ltb (length matches) rule.min_occurrences
      then silent
      else if is_in_cooldown rule prior now
      then silent
      else elim (last_of matches) [
        | none ↦ panics
        | some trigger ↦ fires (action_of rule trigger (length matches) now)
      ]

  -- `Evaluate`, with the actions so far; `none`: a rule panicked.
  unfoldable pub evaluate_from :
      List Rule → List Signal → List Action → List Action → ℕ → Option (List Action)
  evaluate_from [] history prior actions now = some actions
  evaluate_from (rule ∷ rules) history prior actions now =
      elim (evaluate_rule rule history (prior ++ actions) now) [
        | silent ↦ evaluate_from rules history prior actions now
        | fires a ↦ evaluate_from rules history prior (actions ++ a ∷ []) now
        | panics ↦ none
      ]

  unfoldable pub evaluate : List Rule → List Signal → List Action → ℕ → Option (List Action)
  evaluate rules history prior now = evaluate_from rules history prior [] now

unfoldable pub has_action_type : List Action → ActionType → Bool
has_action_type actions t = any (λ a. type_eq a.type t) actions

abbrev pub second : ℕ
second = 1000000000

abbrev pub minute : ℕ
minute = 60 * second

abbrev rule_of : String → State → ℕ → ℕ → ActionType → String → ℕ → Rule
rule_of id state min_occurrences window type target cooldown = record {
  id = id;
  state = state;
  min_occurrences = min_occurrences;
  window = window;
  action_type = type;
  target = target;
  cooldown = cooldown;
}

-- `BuiltinRules`
abbrev pub builtin_rules : List Rule
builtin_rules =
    rule_of "R01" all_pass 3 (5 * minute) notify "app://status" (10 * minute)
    ∷ rule_of "R02" replay_divergence 1 minute reexecute "app://workflow" (30 * second)
    ∷ rule_of "R03" structural_fail 1 minute halt "app://dependent-ops" 0
    ∷ rule_of "R04" drift_detected 1 minute escalate "app://incident" (5 * minute)
    ∷ rule_of "R05" drift_detected 5 (60 * minute) notify "app://status" (30 * minute)
    ∷ rule_of "R06" consistency_fail 1 minute halt "app://all-workflows" 0
    ∷ []
