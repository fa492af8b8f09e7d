-- ===== src/Backpressure/Laws.antt =====
-- The calls that are active: runtime/mcp/contracts/backpressure.go.
use mathlib.Core.List.{Perm}
use ai_workstation_core.Base.{
  String, List, [], ◌∷◌, Option, none, some, ℕ, ◌+◌, ◌-◌, ◌≤◌, ◌≡◌, refl, ◌∙◌, arith, eq_iff,
  if◌then◌else◌, leb, str_eq, length, if_rule,
}
use ai_workstation_core.Base.Perms.{count_by, count_by-Perm, length-Perm}
use ai_workstation_core.Base.Assoc.{Assoc, lookup, insert, lookup-insert}
use ai_workstation_core.Backpressure.{
  BackpressureConfig, BackpressureModel, Rejection, new_backpressure_model, count, is_throttled,
  acquire, decrease, release,
}

-- The calls of a session, and those of a tool, among the active ones.
abbrev pub of_session : String → List (String × String) → ℕ
of_session sid calls = count_by (λ c. str_eq c.0 sid) calls

abbrev pub of_tool : String → List (String × String) → ℕ
of_tool tool calls = count_by (λ c. str_eq c.1 tool) calls

-- The model counts the active calls, a session and a tool each, and they are within the limits.
pub record Counts (b : BackpressureModel) (calls : List (String × String)) : Type 0 where
  pub total : b.total_active ≡ length calls
  pub sessions : (sid : String) → count b.session_count sid ≡ of_session sid calls
  pub tools : (tool : String) → count b.tool_count tool ≡ of_tool tool calls
  pub total_bound : length calls ≤ b.config.max_queue_total
  pub session_bound : (sid : String) → of_session sid calls ≤ b.config.max_queue_per_session
  pub tool_bound :
      (tool : String) (max : ℕ)
      → lookup tool b.config.tool_throttle ≡ some max
      → of_tool tool calls ≤ max

count-insert :
    (k j : String) (n : ℕ) (m : Assoc ℕ)
    → count (insert k n m) j ≡ (if str_eq k j then n else count m j)
count-insert k j n m = ground (arith, eq_iff k j, lookup-insert k j n m)

count-decrease :
    (k j : String) (m : Assoc ℕ)
    → count (decrease k m) j ≡ (if str_eq k j then count m k - 1 else count m j)
unfolding decrease
count-decrease k j m = ground (arith, eq_iff k j, count-insert k j (count m k - 1) m)

pub new_backpressure_model-Counts : (c : BackpressureConfig) → Counts (new_backpressure_model c) []
unfolding new_backpressure_model lookup
new_backpressure_model-Counts c = record {
  total = refl;
  sessions = λ sid. refl;
  tools = λ tool. refl;
  total_bound = omega arith;
  session_bound = λ sid. omega arith;
  tool_bound = λ tool max e. omega arith;
}

-- What an answer of `Acquire` means: the new call is active; or nothing changes.
abbrev pub Acquired :
    BackpressureModel
    → List (String × String)
    → String
    → String
    → BackpressureModel × Option Rejection
    → Type 0
Acquired b calls sid tool (after, none) = Counts after ((sid, tool) ∷ calls)
Acquired b calls sid tool (after, some x) = after ≡ b

-- `Acquire` keeps the count of the active calls true and within all limits: an accepted call is one of
-- them, and a rejected one changes nothing.
pub acquire-Acquired :
    (b : BackpressureModel) (calls : List (String × String)) (sid tool : String)
    → Counts b calls
    → Acquired b calls sid tool (acquire b sid tool)
unfolding acquire
acquire-Acquired b calls sid tool w =
    if_rule (Acquired b calls sid tool) (leb b.config.max_queue_total b.total_active) (λ full. refl)
      (λ room.
        if_rule (Acquired b calls sid tool)
          (leb b.config.max_queue_per_session (count b.session_count sid)) (λ full. refl)
          (λ room_too.
            if_rule (Acquired b calls sid tool) (is_throttled b tool) (λ full. refl)
              (λ free. record {
                total = omega (arith, w.total);
                sessions = λ s. ground (
                  arith,
                  eq_iff sid s,
                  w.sessions s,
                  w.sessions sid,
                  count-insert sid s (count b.session_count sid + 1) b.session_count,
                );
                tools = λ t. ground (
                  arith,
                  eq_iff tool t,
                  w.tools t,
                  w.tools tool,
                  count-insert tool t (count b.tool_count tool + 1) b.tool_count,
                );
                total_bound = ground (arith, w.total);
                session_bound = λ s. ground (arith, eq_iff sid s, w.sessions s, w.session_bound s);
                tool_bound =
                    λ t max e. ground (arith, eq_iff tool t, w.tools t, w.tool_bound t max);
              })))

Counts-Perm :
    (b : BackpressureModel) (calls others : List (String × String))
    → Perm calls others
    → Counts b calls
    → Counts b others
Counts-Perm b calls others p w = record {
  total = omega (arith, w.total, length-Perm p);
  sessions = λ s. w.sessions s ∙ count_by-Perm (λ c. str_eq c.0 s) p;
  tools = λ t. w.tools t ∙ count_by-Perm (λ c. str_eq c.1 t) p;
  total_bound = omega (arith, w.total_bound, length-Perm p);
  session_bound = λ s. omega (arith, w.session_bound s, count_by-Perm (λ c. str_eq c.0 s) p);
  tool_bound = λ t max e. omega (arith, w.tool_bound t max e, count_by-Perm (λ c. str_eq c.1 t) p);
}

release_last-Counts :
    (b : BackpressureModel) (calls : List (String × String)) (sid tool : String)
    → Counts b ((sid, tool) ∷ calls)
    → Counts (release b sid tool) calls
unfolding release
release_last-Counts b calls sid tool w = record {
  total = omega (arith, w.total);
  sessions = λ s. ground (
    arith,
    eq_iff sid s,
    eq_iff sid sid,
    w.sessions s,
    w.sessions sid,
    count-decrease sid s b.session_count,
  );
  tools = λ t. ground (
    arith,
    eq_iff tool t,
    eq_iff tool tool,
    w.tools t,
    w.tools tool,
    count-decrease tool t b.tool_count,
  );
  total_bound = omega (arith, w.total_bound);
  session_bound = λ s. ground (arith, w.session_bound s);
  tool_bound = λ t max e. ground (arith, w.tool_bound t max e);
}

-- `Release` of any active call, in whatever order the calls end, keeps the count of the others true
-- and within all limits.
pub release-Counts :
    (b : BackpressureModel) (calls others : List (String × String)) (sid tool : String)
    → Counts b calls
    → Perm calls ((sid, tool) ∷ others)
    → Counts (release b sid tool) others
release-Counts b calls others sid tool w p =
    release_last-Counts b others sid tool (Counts-Perm b calls ((sid, tool) ∷ others) p w)
