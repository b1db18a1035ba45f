-- ===== src/Api/Router.antt =====
-- daemon/src/api.rs: the routes, each with its handler. A request is what axum has extracted from
-- it: the route, the parts of the path, the query and the body.
use php_periscope.Common.{ℕ, Option, List, Bool}
use php_periscope.Common.Text.{Text, codes}
use php_periscope.Json.{Value, string, object, end, field, Floats}
use php_periscope.Trace.{TraceJson, FrameJson, EventJson}
use php_periscope.Decode.Raw.{JsonText}
use php_periscope.Filter.{TextOps}
use php_periscope.Grouping.{Digest}
use php_periscope.Insights.Report.{Platform, Insights}
use php_periscope.Insights.Detect
use php_periscope.Summary.Report.{Summary}
use php_periscope.Summary.Compute
use php_periscope.Replay.State.{ReconstructedState}
use php_periscope.Api.Reply.{ApiResult, answer, refuse, ◌>>=◌}
use php_periscope.Api.Disk.{Disk, Capnp}
use php_periscope.Api.Traces.{
  ApiState, TraceSummary, list_traces, open_trace, delete_trace, clear_traces,
}
use php_periscope.Api.Views.{
  Page, PaginateQuery, EventQuery, EventsResponse, TimelineEntry, StateQuery, list_frames,
  get_frame, list_queries, list_exceptions, list_events, timeline, get_state,
}
use php_periscope.Api.Source.{FileQuery, FileSlice, read_file}
use php_periscope.Api.Metrics.{
  StorageStats, RevealResponse, ClientMetricsBody, JsonBytes, get_storage, reveal_storage,
  post_client_metrics, get_client_metrics,
}

pub data Request : Type 0 where
  get_health : Request
  get_traces : (limit : Option ℕ) → Request
  delete_all : Request
  get_one delete_one : (id : Text) → Request
  get_frames : (id : Text) → PaginateQuery → Request
  get_frame_of : (id : Text) → (frame_id : ℕ) → Request
  get_queries get_timeline get_exceptions get_insights get_summary : (id : Text) → Request
  get_events : (id : Text) → EventQuery → Request
  get_state_of : (id : Text) → StateQuery → Request
  get_file : FileQuery → Request
  get_storage_stats post_reveal : Request
  post_metrics : ClientMetricsBody → Request
  get_metrics post_rerun : (id : Text) → Request

-- The body of a reply. The state is none where its computation does not end in the fuel given.
pub data Body : Type 0 where
  health : (status version trace_dir : Text) → Body
  traces : List TraceSummary → Body
  deleted : ℕ → Body
  trace : TraceJson → Body
  page : Page FrameJson → Body
  frame : FrameJson → Body
  event_list : List EventJson → Body
  entries : List TimelineEntry → Body
  insights : Insights → Body
  summary : Summary → Body
  events : EventsResponse → Body
  state : Option ReconstructedState → Body
  file : FileSlice → Body
  storage : StorageStats → Body
  reveal : RevealResponse → Body
  json : Value → Body
  rerun : (status detail : Text) → Body

-- What the handlers take from other crates and from the host.
pub record Host : Type 1 where
  pub capnp : Capnp
  pub json_text : JsonText
  pub json_bytes : JsonBytes
  pub text_ops : TextOps
  pub digest : Digest
  pub std : Platform
  pub floats : Floats
  pub from_utf8_lossy : List ℕ → Text
  pub version : Text
  pub command : Text
  pub run : Text → Text → Option Bool
  pub fuel : ℕ

module _ (host : Host) (api : ApiState) where
  -- A handler that opens the trace first.
  unfoldable pub with_trace : Disk → Text → (TraceJson → ApiResult Body) → Disk × ApiResult Body
  with_trace disk id view = (disk, open_trace host.capnp host.json_text api disk id >>= view)

  -- A handler that changes the disk when it answers.
  unfoldable pub changing {ℓ} :
      {A : Type ℓ} → Disk → (A → Body) → ApiResult (Disk × A) → Disk × ApiResult Body
  changing disk body (answer (left, a)) = (left, answer (body a))
  changing disk body (refuse e) = (disk, refuse e)

  unfoldable pub serve : Request → Disk → Disk × ApiResult Body
  serve get_health disk = (disk, answer (health (codes "ok") host.version api.trace_dir))
  serve (get_traces limit) disk =
      (disk, list_traces host.capnp api disk limit >>= λ l. answer (traces l))
  serve delete_all disk =
      let after = clear_traces api disk in (after.0, after.1 >>= λ count. answer (deleted count))
  serve (get_one id) disk = with_trace disk id (λ t. answer (trace t))
  serve (delete_one id) disk = changing disk deleted (delete_trace api disk id)
  serve (get_frames id q) disk = with_trace disk id (λ t. answer (page (list_frames t q)))
  serve (get_frame_of id frame_id) disk =
      with_trace disk id (λ t. get_frame t frame_id >>= λ f. answer (frame f))
  serve (get_queries id) disk = with_trace disk id (λ t. answer (event_list (list_queries t)))
  serve (get_timeline id) disk = with_trace disk id (λ t. answer (entries (timeline t)))
  serve (get_exceptions id) disk = with_trace disk id (λ t. answer (event_list (list_exceptions t)))
  serve (get_insights id) disk =
      with_trace disk id (λ t. answer (insights (Detect.compute host.std t)))
  serve (get_summary id) disk =
      with_trace disk id (λ t. answer (summary (Compute.compute host.floats t)))
  serve (get_events id q) disk =
      with_trace disk id (λ t. list_events host.text_ops host.digest t q >>= λ r. answer (events r))
  serve (get_state_of id q) disk =
      with_trace disk id (λ t. answer (state (get_state host.fuel t q)))
  serve (get_file q) disk =
      (disk, read_file host.from_utf8_lossy api disk q >>= λ slice. answer (file slice))
  serve get_storage_stats disk = (disk, get_storage api disk >>= λ stats. answer (storage stats))
  serve post_reveal disk =
      (disk, reveal_storage host.command host.run api >>= λ r. answer (reveal r))
  serve (post_metrics body) disk =
      changing disk (λ id. json (object (field (codes "trace_id") (string id) end)))
        (post_client_metrics host.json_bytes api disk body)
  serve (get_metrics id) disk =
      (disk, get_client_metrics host.json_bytes api disk id >>= λ v. answer (json v))
  serve (post_rerun id) disk = (
    disk,
    answer (
        rerun (codes "not_implemented")
          (codes "POST /api/traces/{id}/rerun is reserved; full implementation lands in 6.1+")),
  )
