-- ===== src/Scan.antt =====
-- crates/ematix-probe-core/src/engine/scan.rs.
pub mod Acc
pub mod Build
pub mod Cells
pub mod Update
pub mod Finalize
pub mod Evaluate
pub mod Loops
pub mod Total
pub mod Order
pub mod Delivered
pub mod Conform
pub mod Decide
pub mod Arms
pub mod Run
pub mod Sorting
pub mod Errors
