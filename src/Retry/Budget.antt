-- ===== src/Retry/Budget.antt =====
-- The retry budget: runtime/mcp/contracts/retry.go.
use ai_workstation_core.Base.{
  String, List, [], ◌∷◌, ℕ, ◌+◌, ◌≤◌, Bool, ◌≡◌, refl, arith, eq_iff, if◌then◌else◌, leb, if_rule,
}
use ai_workstation_core.Base.Assoc.{Assoc, lookup, lookup_or, insert, lookup-insert}
use ai_workstation_core.Retry.{RetryBudget, new_retry_budget, used, try_consume, remaining}

-- What all tools have used.
abbrev pub used_sum : Assoc ℕ → ℕ
used_sum [] = 0
used_sum ((k, n) ∷ m) = n + used_sum m

-- The use is within the caps, and the total is the sum over the tools.
pub record IsWithin (b : RetryBudget) : Type 0 where
  pub total : b.total_used ≤ b.total_cap
  pub per_tool : (tool : String) → used b tool ≤ b.per_tool_cap
  pub counted : b.total_used ≡ used_sum b.tool_used

used_sum-insert :
    (k : String) (m : Assoc ℕ) → used_sum (insert k (lookup_or k m 0 + 1) m) ≡ used_sum m + 1
unfolding insert lookup
used_sum-insert k [] = refl
used_sum-insert k ((j, n) ∷ m) = ground (arith, used_sum-insert k m)

pub new_retry_budget-IsWithin :
    (total_budget per_tool_cap : ℕ) → IsWithin (new_retry_budget total_budget per_tool_cap)
unfolding new_retry_budget lookup
new_retry_budget-IsWithin total_budget per_tool_cap = record {
  total = omega arith;
  per_tool = λ tool. omega arith;
  counted = refl;
}

pub try_consume-IsWithin :
    (b : RetryBudget) (tool : String) → IsWithin b → IsWithin (try_consume b tool).0
unfolding try_consume
try_consume-IsWithin b tool w =
    if_rule (λ (r : RetryBudget × Bool). IsWithin r.0) (leb b.total_cap b.total_used) (λ out. w)
      (λ room.
        if_rule (λ (r : RetryBudget × Bool). IsWithin r.0) (leb b.per_tool_cap (used b tool))
          (λ out. w)
          (λ room_too. record {
            total = ground arith;
            per_tool = λ other. ground (
              arith,
              eq_iff tool other,
              w.per_tool other,
              lookup-insert tool other (used b tool + 1) b.tool_used,
            );
            counted = omega (arith, w.counted, used_sum-insert tool b.tool_used);
          }))

-- The retries of some tools in a row, with the number of those that are allowed.
unfoldable pub consume_all : RetryBudget → List String → RetryBudget × ℕ
consume_all b [] = (b, 0)
consume_all b (tool ∷ tools) =
    let rest = consume_all (try_consume b tool).0 tools in
    (rest.0, if (try_consume b tool).1 then rest.1 + 1 else rest.1)

try_consume-remaining :
    (b : RetryBudget) (tool : String)
    → IsWithin b
    → remaining (try_consume b tool).0 + (if (try_consume b tool).1 then 1 else 0) ≡ remaining b
unfolding try_consume
try_consume-remaining b tool w = ground (arith, w.total)

-- However many tools ask for retries, and in whatever order, the number of those that are allowed is
-- what the budget loses, so it is at most what remained; the use stays within both caps.
pub consume_all-IsWithin :
    (b : RetryBudget) (tools : List String)
    → IsWithin b
    → IsWithin (consume_all b tools).0
      × (remaining (consume_all b tools).0 + (consume_all b tools).1 ≡ remaining b)
unfolding consume_all
consume_all-IsWithin b [] w = (w, omega arith)
consume_all-IsWithin b (tool ∷ tools) w =
    let next = (try_consume b tool).0 in
    let (within, sum) = consume_all-IsWithin next tools (try_consume-IsWithin b tool w) in
    (within, ground (arith, sum, try_consume-remaining b tool w))
