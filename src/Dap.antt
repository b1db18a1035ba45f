-- ===== src/Dap.antt =====
-- daemon/src/dap.rs: the debug adapter.
pub mod Session
pub mod Requests
pub mod Dispatch
pub mod Outcomes
pub mod Answers
pub mod Points
pub mod Wire
pub mod Framing
mod Tests
