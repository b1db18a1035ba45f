-- ===== src/Decode.antt =====
-- daemon/src/trace.rs and daemon/src/trace_view.rs: a trace file decoded into the structs.
pub mod Raw
pub mod Meta
pub mod Frames
pub mod Events
