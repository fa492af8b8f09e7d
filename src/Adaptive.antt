-- ===== src/Adaptive.antt =====
-- mek/internal/adaptctl: the adaptive control plane. Signals are made of the reports of the kernel
-- (`Signal`, `Ingestor`), rules turn a history of signals into actions (`Feedback`), and the bus
-- delivers the actions (`Bus`).
pub mod Signal
pub mod Ingestor
pub mod Feedback
pub mod Bus
