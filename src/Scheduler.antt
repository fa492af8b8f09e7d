-- ===== src/Scheduler.antt =====
-- mek/internal/scheduler/scheduler.go: the waves (`Waves`), the single transitions (`Steps`) and the
-- execution loop (`Loop`).
pub mod Waves
pub mod Steps
pub mod Loop
pub mod Justified
pub mod Ends
