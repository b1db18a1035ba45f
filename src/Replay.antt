-- ===== src/Replay.antt =====
-- daemon/src/replay: the index over a trace, the cursor, and the state at a moment.
pub mod Index
pub mod Cursor
pub mod State
mod Tests
