-- ===== src/Dump/Decode.antt =====
-- daemon/src/bin/dump.rs: its own copy of the decoding.
use php_periscope.Common.{ℕ, ◌-◌, ◌%◌, Option, none, some, List, [], ◌∷◌, and_then, unwrap_or}
use php_periscope.Common.Text.{Text, codes}
use php_periscope.Common.Results.{Result, ok, ◌>>=◌}
use php_periscope.Json.{Value, null, string, as_object, as_array, as_u64, as_str, value_get}
use php_periscope.Decode.Raw.{
  RawPayload, generic_json, sql_query, log_line, cache_op, http_call, redis_op, event_dispatched,
  job_dispatched, mail_sent, n_plus_one, request_resolved, unknown_payload, RawEvent, RawFrame,
  RawMeta, RawValue, JsonText, text_of, ok_of, opaque_or_empty,
}
use php_periscope.Decode.Events.{u32_mod}
use php_periscope.Dump.Report.{
  EventJson, CallSiteJson, SnippetLineJson, StackFrameJson, FrameJson, MetaJson,
}

abbrev pub number_at : Value → Text → ℕ
number_at o k = unwrap_or (and_then (value_get o k) as_u64) 0 % u32_mod

abbrev pub text_at : Value → Text → Text
text_at o k = unwrap_or (and_then (value_get o k) as_str) []

abbrev pub array_at : Value → Text → List Value
array_at o k = unwrap_or (and_then (value_get o k) as_array) []

unfoldable pub dump_snippet : List Value → List SnippetLineJson
dump_snippet [] = []
dump_snippet (s ∷ arr) =
    let rest = dump_snippet arr in
    elim (as_object s) [
      | none ↦ rest
      | some _ ↦
          record { number = number_at s (codes "number"); source = text_at s (codes "source") }
          ∷ rest
    ]

unfoldable pub dump_frame_stack : List Value → List ℕ
dump_frame_stack [] = []
dump_frame_stack (n ∷ arr) =
    let rest = dump_frame_stack arr in elim (as_u64 n) [ none ↦ rest | some x ↦ x % u32_mod ∷ rest ]

unfoldable pub dump_stack : List Value → List StackFrameJson
dump_stack [] = []
dump_stack (s ∷ arr) =
    let rest = dump_stack arr in
    elim (as_object s) [
      | none ↦ rest
      | some _ ↦
          record {
            file = text_at s (codes "file");
            line = number_at s (codes "line");
            function = text_at s (codes "function");
          }
          ∷ rest
    ]

unfoldable pub dump_site : Value → Option CallSiteJson
dump_site v = elim (as_object v) [
  | none ↦ none
  | some _ ↦ elim (text_at v (codes "file")) [
    | [] ↦ none
    | c ∷ file ↦ some (record {
      file = c ∷ file;
      line = number_at v (codes "line");
      snippet = dump_snippet (array_at v (codes "snippet"));
      frame_stack = dump_frame_stack (array_at v (codes "frame_stack"));
      stack = dump_stack (array_at v (codes "stack"));
    })
  ]
]

-- The first argument's opaque value.
unfoldable pub dump_args : List (Result RawValue) → Option Text
dump_args [] = none
dump_args (a ∷ _) = and_then (ok_of a) opaque_or_empty

-- The closure over the frames.
unfoldable pub dump_frame : RawFrame → Result FrameJson
dump_frame f = do
  function ← text_of f.function
  file ← text_of f.file
  args ← f.args
  ok (record {
    id = f.id;
    parent_id = f.parent_id;
    function = function;
    file = file;
    line = f.line;
    enter_micros = f.enter_micros;
    exit_micros = f.exit_micros;
    duration_micros = f.exit_micros - f.enter_micros;
    depth = f.depth;
    args = dump_args args;
    return_value = and_then (ok_of f.return_value) opaque_or_empty;
  })

unfoldable pub dump_meta : RawMeta → Result MetaJson
dump_meta meta = do
  php_version ← text_of meta.php_version
  periscope_version ← text_of meta.periscope_version
  sapi ← text_of meta.sapi
  entry_point ← text_of meta.entry_point
  working_dir ← text_of meta.working_dir
  ok (record {
    php_version = php_version;
    periscope_version = periscope_version;
    sapi = sapi;
    entry_point = entry_point;
    working_dir = working_dir;
    pid = meta.pid;
    started_at_unix_micros = meta.started_at_unix_micros;
    duration_micros = meta.duration_micros;
  })

module _ (json : JsonText) where
  -- `decode_event_payload`
  unfoldable pub dump_payload : RawPayload → Result (Text × Value)
  dump_payload (generic_json reader) = do
    r ← reader
    tag ← text_of r.type_tag
    raw ← text_of r.payload_json
    ok (tag, unwrap_or (json.from_str raw) (string raw))
  dump_payload sql_query = ok (codes "sql", null)
  dump_payload log_line = ok (codes "log", null)
  dump_payload cache_op = ok (codes "cache", null)
  dump_payload http_call = ok (codes "http", null)
  dump_payload redis_op = ok (codes "redis", null)
  dump_payload event_dispatched = ok (codes "event", null)
  dump_payload job_dispatched = ok (codes "job", null)
  dump_payload mail_sent = ok (codes "mail", null)
  dump_payload n_plus_one = ok (codes "n_plus_one", null)
  dump_payload request_resolved = ok (codes "request_resolved", null)
  dump_payload unknown_payload = ok (codes "<unknown>", null)

  unfoldable pub dump_parsed_site : Text → Option CallSiteJson
  dump_parsed_site [] = none
  dump_parsed_site (c ∷ raw) = elim (json.from_str (c ∷ raw)) [ none ↦ none | some v ↦ dump_site v ]

  -- `decode_call_site`
  unfoldable pub dump_call_site : RawPayload → Result (Option CallSiteJson)
  dump_call_site (generic_json reader) = do
    r ← reader
    raw ← text_of r.call_site_json
    ok (dump_parsed_site raw)
  dump_call_site _ = ok none

  -- The closure over the events.
  unfoldable pub dump_event : RawEvent → Result EventJson
  dump_event e = do
    decoded ← dump_payload e.payload
    site ← dump_call_site e.payload
    ok (record {
      id = e.id;
      at_micros = e.at_micros;
      in_frame_id = e.in_frame_id;
      type_tag = decoded.0;
      payload = decoded.1;
      user_call_site = site;
    })
