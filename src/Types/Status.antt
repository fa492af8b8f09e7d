-- ===== src/Types/Status.antt =====
-- `NodeStatus` of mek/pkg/types/types.go. The Go type is a string: `other` holds any text that is
-- none of the seven constants (an adapter may return one).
use ai_workstation_core.Base.{String, Bool, true, false, ◌≡◌, ◌↔◌, arith, str_eq, eq_iff}

pub data NodeStatus : Type 0 where
  blocked ready running success failure skipped terminated : NodeStatus
  other : String → NodeStatus

-- Go's `==` on statuses.
abbrev pub status_eq : NodeStatus → NodeStatus → Bool
status_eq blocked blocked = true
status_eq ready ready = true
status_eq running running = true
status_eq success success = true
status_eq failure failure = true
status_eq skipped skipped = true
status_eq terminated terminated = true
status_eq (other s) (other t) = str_eq s t
status_eq _ _ = false

unfoldable pub is_terminal : NodeStatus → Bool
is_terminal success = true
is_terminal failure = true
is_terminal skipped = true
is_terminal terminated = true
is_terminal _ = false

pub status_eq_iff : (s t : NodeStatus) → (status_eq s t ≡ true) ↔ (s ≡ t)
status_eq_iff (other a) (other b) = ground (arith, eq_iff a b)
status_eq_iff _ _ = ground arith
