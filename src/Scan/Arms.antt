-- ===== src/Scan/Arms.antt =====
-- Each arm of `Acc::update` of engine/scan.rs as a step over the cells that it reads.
mod Appends
mod Numbers
mod Keys
mod Values
pub use Appends.{add_nulls, add_rows}
unfoldable pub use Numbers.*
pub use Keys.*
pub use Values.*
