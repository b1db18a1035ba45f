-- ===== src/Export.antt =====
-- daemon/src/bin/export.rs: the command that packs a trace into one file.
pub mod Assets
pub mod Main
pub mod Page
pub mod Ends
mod Tests
