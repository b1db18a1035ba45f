-- ===== src/Summary.antt =====
-- daemon/src/summary.rs: the totals of a trace by the type of its events.
pub mod Report
pub mod Folds
pub mod Compute
pub mod Counts
pub mod Sums
pub mod Totals
mod Tests
