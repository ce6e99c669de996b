-- ===== src/Postgres.antt =====
-- crates/ematix-probe-core/src/adapters/data/postgres.rs.
pub mod Ident
pub mod Reading
pub mod Pool
pub mod Deadpool
pub mod Connect
pub mod Checks
pub mod Execute
pub mod Runs
pub mod Tables
pub mod Cells
pub mod Meaning
pub mod Shown
pub mod Agreement
pub mod Refusals
