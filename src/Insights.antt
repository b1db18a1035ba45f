-- ===== src/Insights.antt =====
-- daemon/src/insights.rs: the detectors.
pub mod Report
pub mod Sql
pub mod Detect
pub mod Slow
pub mod Loops
mod Tests
