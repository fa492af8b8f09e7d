-- ===== src/Backpressure.antt =====
-- runtime/mcp/contracts/backpressure.go: the model that admits and releases the calls of tools. The
-- limits are not negative; the percentage of soft rejection is left out, with the method that reads
-- it. The errors keep what their messages name.
pub mod Laws
use ai_workstation_core.Base.{
  String, Option, none, some, ℕ, ◌+◌, ◌-◌, Bool, true, false, if◌then◌else◌, ◌==◌, leb, ltb, [],
}
use ai_workstation_core.Base.Assoc.{Assoc, lookup, lookup_or, insert}

pub record BackpressureConfig : Type 0 where
  pub max_queue_per_session : ℕ
  pub max_queue_total : ℕ
  pub tool_throttle : Assoc ℕ

pub record BackpressureModel : Type 0 where
  pub session_count : Assoc ℕ
  pub tool_count : Assoc ℕ
  pub total_active : ℕ
  pub config : BackpressureConfig

pub data Rejection : Type 0 where
  system_saturated : Rejection
  session_at_limit : (session_id : String) → Rejection
  tool_saturated : (tool : String) → Rejection

unfoldable pub new_backpressure_model : BackpressureConfig → BackpressureModel
new_backpressure_model c = record {
  session_count = [];
  tool_count = [];
  total_active = 0;
  config = record c {
    max_queue_per_session = if c.max_queue_per_session == 0 then 5 else c.max_queue_per_session;
    max_queue_total = if c.max_queue_total == 0 then 1000 else c.max_queue_total;
  };
}

abbrev pub count : Assoc ℕ → String → ℕ
count m k = lookup_or k m 0

-- `c, ok := ToolThrottle[tool]; ok && toolCount[tool] >= c.MaxConcurrent`
abbrev pub is_throttled : BackpressureModel → String → Bool
is_throttled b tool = elim (lookup tool b.config.tool_throttle) [
  | none ↦ false
  | some max ↦ leb max (count b.tool_count tool)
]

abbrev pub admitted : BackpressureModel → String → String → BackpressureModel
admitted b sid tool = record b {
  session_count = insert sid (count b.session_count sid + 1) b.session_count;
  tool_count = insert tool (count b.tool_count tool + 1) b.tool_count;
  total_active = b.total_active + 1;
}

-- `Acquire`
unfoldable pub acquire : BackpressureModel → String → String → BackpressureModel × Option Rejection
acquire b sid tool =
    if leb b.config.max_queue_total b.total_active
    then (b, some system_saturated)
    else if leb b.config.max_queue_per_session (count b.session_count sid)
    then (b, some (session_at_limit sid))
    else if is_throttled b tool
    then (b, some (tool_saturated tool))
    else (admitted b sid tool, none)

-- `if m[k] > 0 { m[k]-- }`
unfoldable pub decrease : String → Assoc ℕ → Assoc ℕ
decrease k m = if ltb 0 (count m k) then insert k (count m k - 1) m else m

-- `Release`; a subtraction on ℕ stops at 0, as the test before it has it.
unfoldable pub release : BackpressureModel → String → String → BackpressureModel
release b sid tool = record b {
  session_count = decrease sid b.session_count;
  tool_count = decrease tool b.tool_count;
  total_active = b.total_active - 1;
}

-- `IsSoftRejected`
unfoldable pub is_soft_rejected : BackpressureModel → String → Bool
is_soft_rejected b sid = leb b.config.max_queue_per_session (count b.session_count sid)
