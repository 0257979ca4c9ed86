-- ===== src/Scheduler.antt =====
-- crates/anymone-core/src/scheduler_core.rs, the scheduler of the governance committee.
pub mod Sizing
pub mod WireSize
pub mod Observer
pub mod State
pub mod Registration
pub mod FaultReports
pub mod Structure
pub mod Validation
pub mod Proposals
pub mod Build
pub mod Tick
