-- ===== src/Ceg.antt =====
-- mek/internal/ceg/builder.go: when a blocked node may run or must be skipped (`Activation`) and the
-- layers of the graph (`Layers`).
pub mod Activation
pub mod Layers
pub mod Search
pub mod Build
