-- ===== src/Decode/Events.antt =====
-- daemon/src/trace_view.rs: `decode_event` and `decode_trace`.
use php_periscope.Common.{ℕ, ◌%◌, ◌^◌, Option, none, some, List, [], ◌∷◌, and_then, unwrap_or}
use php_periscope.Common.Text.{Text, codes}
use php_periscope.Common.Results.{Result, ok, ◌>>=◌, collect}
use php_periscope.Json.{
  Value, null, string, value_get, as_array, as_object, as_u64, get_str, get_u64,
}
use php_periscope.Trace.{TraceJson, EventJson, CallSiteJson, SnippetLineJson, StackFrameJson}
use php_periscope.Decode.Raw.{
  RawPayload, generic_json, sql_query, log_line, cache_op, http_call, redis_op, event_dispatched,
  job_dispatched, mail_sent, n_plus_one, request_resolved, unknown_payload, RawGeneric, RawEvent,
  RawTrace, JsonText, text_of,
}
use php_periscope.Decode.Meta.{decode_meta}
use php_periscope.Decode.Frames.{decode_frame}

abbrev pub u32_mod : ℕ
u32_mod = 2 ^ 32

-- `o.get(k).and_then(|v| v.as_u64()).unwrap_or(0) as u32`, `….as_str()).unwrap_or("")` and
-- `….as_array()…unwrap_or_default()`
abbrev pub u32_at : Value → Text → ℕ
u32_at o k = unwrap_or (get_u64 o k) 0 % u32_mod

abbrev pub str_at : Value → Text → Text
str_at o k = unwrap_or (get_str o k) []

abbrev pub items_at : Value → Text → List Value
items_at o k = unwrap_or (and_then (value_get o k) as_array) []

-- The items that are objects, each made into a line of the snippet; other items are left out.
unfoldable pub snippet_of : List Value → List SnippetLineJson
snippet_of [] = []
snippet_of (s ∷ arr) =
    let rest = snippet_of arr in
    elim (as_object s) [
      | none ↦ rest
      | some _ ↦
          record { number = u32_at s (codes "number"); source = str_at s (codes "source") } ∷ rest
    ]

unfoldable pub frame_stack_of : List Value → List ℕ
frame_stack_of [] = []
frame_stack_of (n ∷ arr) =
    let rest = frame_stack_of arr in elim (as_u64 n) [ none ↦ rest | some x ↦ x % u32_mod ∷ rest ]

unfoldable pub stack_of_call : List Value → List StackFrameJson
stack_of_call [] = []
stack_of_call (s ∷ arr) =
    let rest = stack_of_call arr in
    elim (as_object s) [
      | none ↦ rest
      | some _ ↦
          record {
            file = str_at s (codes "file");
            line = u32_at s (codes "line");
            function = str_at s (codes "function");
          }
          ∷ rest
    ]

-- The call site that a JSON value describes: an object with a file.
unfoldable pub call_site_of : Value → Option CallSiteJson
call_site_of v = and_then (as_object v) (λ _. elim (str_at v (codes "file")) [
  | [] ↦ none
  | c ∷ file ↦ some (record {
    file = c ∷ file;
    line = u32_at v (codes "line");
    snippet = snippet_of (items_at v (codes "snippet"));
    frame_stack = frame_stack_of (items_at v (codes "frame_stack"));
    stack = stack_of_call (items_at v (codes "stack"));
  })
])

module _ (json : JsonText) where
  unfoldable pub generic_payload : RawGeneric → Result (Text × Value)
  generic_payload r = do
    tag ← text_of r.type_tag
    raw ← text_of r.payload_json
    ok (tag, unwrap_or (json.from_str raw) (string raw))

  unfoldable pub decode_event_payload : RawPayload → Result (Text × Value)
  decode_event_payload (generic_json reader) = reader >>= generic_payload
  decode_event_payload sql_query = ok (codes "sql", null)
  decode_event_payload log_line = ok (codes "log", null)
  decode_event_payload cache_op = ok (codes "cache", null)
  decode_event_payload http_call = ok (codes "http", null)
  decode_event_payload redis_op = ok (codes "redis", null)
  decode_event_payload event_dispatched = ok (codes "event", null)
  decode_event_payload job_dispatched = ok (codes "job", null)
  decode_event_payload mail_sent = ok (codes "mail", null)
  decode_event_payload n_plus_one = ok (codes "n_plus_one", null)
  decode_event_payload request_resolved = ok (codes "request_resolved", null)
  decode_event_payload unknown_payload = ok (codes "<unknown>", null)

  -- The text of a call site: none when it is empty or does not parse.
  unfoldable pub parse_call_site : Text → Option CallSiteJson
  parse_call_site [] = none
  parse_call_site (c ∷ raw) = and_then (json.from_str (c ∷ raw)) call_site_of

  unfoldable pub decode_call_site : RawPayload → Result (Option CallSiteJson)
  decode_call_site (generic_json reader) = do
    r ← reader
    raw ← text_of r.call_site_json
    ok (parse_call_site raw)
  decode_call_site _ = ok none

  unfoldable pub decode_event : RawEvent → Result EventJson
  decode_event e = do
    decoded ← decode_event_payload e.payload
    site ← decode_call_site e.payload
    ok (record {
      id = e.id;
      at_micros = e.at_micros;
      in_frame_id = e.in_frame_id;
      type_tag = decoded.0;
      payload = decoded.1;
      user_call_site = site;
    })

  -- `decode_trace`
  unfoldable pub decode_trace : Text → RawTrace → Result TraceJson
  decode_trace id root = do
    raw_meta ← root.meta
    meta ← decode_meta json raw_meta
    raw_frames ← root.frames
    frames ← collect decode_frame raw_frames
    raw_events ← root.events
    events ← collect decode_event raw_events
    ok (record { id = id; meta = meta; frames = frames; observability_events = events })
