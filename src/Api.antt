-- ===== src/Api.antt =====
-- daemon/src/api.rs: the HTTP API. A handler is a function of the state, the disk and the request;
-- one that changes the disk returns it too.
pub mod Reply
pub mod Disk
pub mod Traces
pub mod Views
pub mod Source
pub mod Metrics
pub mod Live
pub mod Router
pub mod Names
pub mod Stems
pub mod Inside
pub mod Pages
pub mod Timeline
pub mod Lines
pub mod Nearest
pub mod Listing
pub mod Removal
pub mod Clear
pub mod Sidecar
mod Tests
