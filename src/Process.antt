-- ===== src/Process.antt =====
-- The two processes: their configuration file (pkg/config), their options and what they run (cmd).
pub mod Config
pub mod ConfigLaws
pub mod Options
pub mod Gates
pub mod Loop
pub mod LoopLaws
pub mod Run
pub mod RunLaws
pub mod Command
