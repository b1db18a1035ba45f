-- ===== src/Dump.antt =====
-- daemon/src/bin/dump.rs: the dump of a trace as JSON or as text.
pub mod Report
pub mod Decode
pub mod Print
pub mod Main
pub mod Agree
pub mod Preview
mod Tests
