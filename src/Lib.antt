-- ===== src/Lib.antt =====
-- The daemon of php-periscope: the replay of a recorded PHP request, and what the daemon makes
-- of the events recorded with it.
--
-- A trace is the list of a request's frames (calls, each with its parent, depth and times) and
-- the list of its observability events. The daemon indexes a trace once, and every view reads
-- the index or the lists: a cursor steps forth and back over the frames in call order, the state
-- at a time is put together from the frame, the stack and the events up to it, events are
-- filtered, grouped, totalled and searched for trouble, a debug adapter puts the cursor behind
-- an editor's debugger, and a socket links the daemon to the extension.
--
-- Which file models which part:
-- - Trace: the structs of daemon/src/trace_view.rs. Json: `serde_json::Value` and its accessors.
-- - Replay/Index: `TraceIndex` of daemon/src/replay/index.rs, with `build`, `frame_at`,
--   `stack_from`, `events_before`, `children_of` and the lookups. Replay/Index/ has the proofs:
--   Positions and Lookup for the maps of positions, Links, Traverse, Forest, Build and Walk for
--   the preorder, Windows for where `frame_at` ends and Depths for its depth, Stack for the chain
--   of parents, Events for the events.
-- - Replay/Cursor: `ReplayCursor` and `BreakpointSet` of daemon/src/replay/cursor.rs. A method
--   that takes `&mut self` returns the cursor after it beside its result. Replay/Cursor/Over and
--   Subtree are about `step_over`, Scan and Continue about the two continues, Bounds about every
--   step, Seek about the two seeks.
-- - Replay/State: `at_time` and `at_frame` of daemon/src/replay/state.rs, with State/Laws.
-- - Filter: daemon/src/event_filter.rs, with the proofs in Filter/Split, Written and Match.
-- - Grouping: daemon/src/grouping.rs, with Grouping/Groups.
-- - Link: the bus and the frames of daemon/src/ext_link.rs, with Link/Frames, Link/Loop,
--   Link/Bus.
-- - Summary: daemon/src/summary.rs, its structs in Summary/Report, the folds in Summary/Folds,
--   and `compute` in Summary/Compute; Counts, Sums and Totals have the proofs.
-- - Insights: daemon/src/insights.rs, its structs in Insights/Report, `normalise_sql` in
--   Insights/Sql, the detectors in Insights/Detect; Insights/Slow and Insights/Loops have the
--   proofs.
-- - Dap: the session and the request handlers of daemon/src/dap.rs, the state and what is
--   written in Dap/Session, the handlers in Dap/Requests and Dap/Dispatch, the proofs in
--   Dap/Outcomes, Dap/Answers and Dap/Points; Dap/Wire has the bytes of the messages and the loop
--   of `run`, Dap/Framing the proof that they are read back. It uses the cursor of Replay and the
--   bus of Link.
-- - Decode: `decode_trace` of daemon/src/trace_view.rs with its helpers, on what the generated
--   readers return (Decode/Raw): Meta, Frames and Events.
-- - Dump: daemon/src/bin/dump.rs, its structs in Dump/Report, its copy of the decoding in
--   Dump/Decode, what it prints in Dump/Print, `main` in Dump/Main. Agree compares the two copies,
--   and Preview is about the cut of a payload.
-- - Api: daemon/src/api.rs and `Trace::open` of daemon/src/trace.rs. Reply has the errors, Disk
--   what is asked of the file system, Traces the listing, opening and deleting of traces, Views
--   the parts of one trace, Source `read_file`, Metrics the storage and the client metrics, Live
--   the WebSocket loop, and Router the routes with their handlers. The proofs: Names and Listing
--   about names and paths, Stems and Inside about what a request can change, Removal and Clear,
--   Nearest, Sidecar, Lines, Pages and Timeline about the handlers they are named for. It shows
--   what Decode, Summary, Insights, Filter, Grouping and Replay/State make.
-- - Export: daemon/src/bin/export.rs, the page and its assets in Export/Assets, the formats in
--   Export/Main; Page and Ends have the proofs.
-- - Daemon: the services that `main` of daemon/src/bin/daemon.rs starts.
-- - Common: lists, maps, sorting, results and texts.
-- A Tests file beside each part applies its theorems to concrete values.
--
-- How the state corresponds: a `u32`, `u64` or `usize` is a natural number; the sum that
-- `frame_at` makes and the sums of payload numbers wrap at 2 ^ 64. A `HashMap` or `BTreeMap` is
-- an association list without repeated keys. A text is the list of its code points. The stable
-- sorts are an insertion sort, since a stable sort by a total preorder has only one result. An
-- index out of range, which would panic, is `none`. A disk is the list of its files by path, the
-- directories that can be read, and the errors that the system would give; a path is a text, and
-- links and `..` are followed only by `canonicalize`, which the disk gives. A handler of the API
-- that changes the disk returns it. A text that is printed is the list of its lines.
--
-- Fuel: the traversal of `build`, the descent of `frame_at`, the chain of `stack_from` and the
-- loop of `read_loop` are loops without a bound, and take fuel, `none` when it runs out, as does
-- `inline_assets`, which gives itself the length of its page. The theorems about them give
-- enough fuel, from the number of frames, bytes or characters, and for traces
-- with a frame that is its own parent two theorems show that no fuel is enough.
--
-- Parameters: what the code takes from elsewhere is an argument of the definitions. `TextOps`
-- has the Unicode tables, parsing and comparing of `f64`, and serde_json's printer; `Digest` has
-- SHA-256 and that printer; `Codec` is serde_json on the socket's messages; `Floats` has the
-- operations on `f64`; `Platform` adds number formatting and the order of a `HashMap`; `Env`
-- opens a trace file and takes the file name of a path; `JsonText` and `JsonBytes` are serde_json
-- on texts and bytes; `Capnp` is the parsing of a trace's bytes; the `Host` of the API and that of
-- the export hold these, and the decoding and encoding of UTF-8.
--
-- Not modelled: which branch a select of tokio takes (it is the sequence of steps that `run` and
-- the WebSocket loop are given), the readers of trace files, which a build generates from proto/,
-- the routing of axum and the serving of the built UI, argument parsing, signals and logging, the
-- sockets of tokio, file names that are not UTF-8, and the parts of the repository in other
-- languages (extension/, ui/, laravel-adapter/, vscode-extension/, jetbrains-plugin/).
pub mod Common
pub mod Json
pub mod Trace
pub mod Replay
pub mod Filter
pub mod Grouping
pub mod Link
pub mod Summary
pub mod Insights
pub mod Dap
pub mod Decode
pub mod Dump
pub mod Api
pub mod Export
pub mod Daemon
