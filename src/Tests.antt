-- ===== src/Tests.antt =====
-- Runs at concrete inputs: the theorems of each part applied where their conditions hold.
pub mod RequestRuns
pub mod ListRuns
pub mod ScheduleRuns
pub mod HandlerRuns
pub mod ChainRuns
pub mod ProcessRuns
pub mod ApiserverRuns
pub mod ControllerRuns
pub mod ClientRuns
pub mod GeneratedRuns
pub mod MemoryRuns
pub mod SyncRuns
pub mod WireRuns
