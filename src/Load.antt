-- ===== src/Load.antt =====
-- crates/ematix-probe-core/src/engine/load.rs and the modules below it.
pub mod Plan
pub mod Evaluate
pub mod Scheduler
pub mod Status
pub mod Runs
pub mod Windows
pub mod Latency
pub mod Schedule
pub mod VuPool
pub mod Tasks
pub mod Http
pub mod Sql
