-- ===== src/Scan/Order.antt =====
-- The order of rows and their division into batches, in the scan path of engine/scan.rs.
pub mod Items
pub mod Ranks
pub mod Rearranged
pub mod Picks
pub mod Coincides
pub mod Runs
