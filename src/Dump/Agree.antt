-- ===== src/Dump/Agree.antt =====
-- daemon/src/bin/dump.rs against daemon/src/trace_view.rs: two copies of one decoding.
use php_periscope.Common.{
  ℕ, List, [], ◌∷◌, ◌≡◌, refl, ap, ◌∙◌, arith, length, take, map, map_some, Option-cases,
  List-cases, inl, inr,
}
use php_periscope.Common.Text.{Text, codes}
use php_periscope.Common.Results.{
  Result, ok, err, collect, Result-cases, collect-length, collect-take, collect-map,
}
use php_periscope.Json.{Value, as_object, as_u64, get_str, get_u64}
use php_periscope.Trace
use php_periscope.Decode.Raw.{
  RawTrace, RawMeta, RawFrame, RawEvent, RawPayload, generic_json, JsonText, text_of,
}
use php_periscope.Decode.Meta.{decode_meta}
use php_periscope.Decode.Frames.{decode_frame, first_summary}
use php_periscope.Decode.Events.{
  snippet_of, frame_stack_of, stack_of_call, call_site_of, items_at, str_at, parse_call_site,
  decode_event_payload, decode_call_site, decode_event, decode_trace, generic_payload,
}
use php_periscope.Dump.Report.{
  SnippetLineJson, StackFrameJson, CallSiteJson, EventJson, MetaJson, FrameJson, TraceJson,
}
use php_periscope.Dump.Decode.{
  dump_snippet, dump_frame_stack, dump_stack, dump_site, dump_args, dump_frame, dump_meta,
  dump_payload, dump_parsed_site, dump_call_site, dump_event,
}
use php_periscope.Dump.Main.{shown, dump_json}

-- From the structs of `trace_view` to those of the dump, which are named alike: what they lack is
-- dropped, and two fields of a frame are renamed.
abbrev pub snippet_part : Trace.SnippetLineJson → SnippetLineJson
snippet_part l = record { number = l.number; source = l.source }

abbrev pub stack_part : Trace.StackFrameJson → StackFrameJson
stack_part f = record { file = f.file; line = f.line; function = f.function }

abbrev pub site_part : Trace.CallSiteJson → CallSiteJson
site_part c = record {
  file = c.file;
  line = c.line;
  snippet = map snippet_part c.snippet;
  frame_stack = c.frame_stack;
  stack = map stack_part c.stack;
}

abbrev pub event_part : Trace.EventJson → EventJson
event_part e = record {
  id = e.id;
  at_micros = e.at_micros;
  in_frame_id = e.in_frame_id;
  type_tag = e.type_tag;
  payload = e.payload;
  user_call_site = map_some site_part e.user_call_site;
}

abbrev pub frame_part : Trace.FrameJson → FrameJson
frame_part f = record {
  id = f.id;
  parent_id = f.parent_id;
  function = f.function;
  file = f.file;
  line = f.line;
  enter_micros = f.enter_micros;
  exit_micros = f.exit_micros;
  duration_micros = f.duration_micros;
  depth = f.depth;
  args = f.args_summary;
  return_value = f.return_value_summary;
}

abbrev pub meta_part : Trace.MetaJson → MetaJson
meta_part m = record {
  php_version = m.php_version;
  periscope_version = m.periscope_version;
  sapi = m.sapi;
  entry_point = m.entry_point;
  working_dir = m.working_dir;
  pid = m.pid;
  started_at_unix_micros = m.started_at_unix_micros;
  duration_micros = m.duration_micros;
}

-- The first frames, as many as the limit asks for, and all events.
abbrev pub trace_part : ℕ → Trace.TraceJson → TraceJson
trace_part limit t = record {
  meta = meta_part t.meta;
  frames = map frame_part (take (shown limit (length t.frames)) t.frames);
  observability_events = map event_part t.observability_events;
}

abbrev map_ok {ℓ κ} : {A : Type ℓ} {B : Type κ} → (A → B) → Result A → Result B
map_ok f (ok a) = ok (f a)
map_ok f (err e) = err e

snippet_same : (arr : List Value) → dump_snippet arr ≡ map snippet_part (snippet_of arr)
unfolding dump_snippet snippet_of get_str get_u64
snippet_same [] = refl
snippet_same (s ∷ arr) = elim (Option-cases (as_object s)) [
  | inl other ↦ rw (dump_snippet, snippet_of, other) (snippet_same arr)
  | inr (o, object) ↦ rw (dump_snippet, snippet_of, object, snippet_same arr) refl
]

frame_stack_same : (arr : List Value) → dump_frame_stack arr ≡ frame_stack_of arr
unfolding dump_frame_stack frame_stack_of
frame_stack_same [] = refl
frame_stack_same (s ∷ arr) = elim (Option-cases (as_u64 s)) [
  | inl other ↦ rw (dump_frame_stack, frame_stack_of, other) (frame_stack_same arr)
  | inr (o, number) ↦ rw (dump_frame_stack, frame_stack_of, number, frame_stack_same arr) refl
]

stack_same : (arr : List Value) → dump_stack arr ≡ map stack_part (stack_of_call arr)
unfolding dump_stack stack_of_call get_str get_u64
stack_same [] = refl
stack_same (s ∷ arr) = elim (Option-cases (as_object s)) [
  | inl other ↦ rw (dump_stack, stack_of_call, other) (stack_same arr)
  | inr (o, object) ↦ rw (dump_stack, stack_of_call, object, stack_same arr) refl
]

site_same : (v : Value) → dump_site v ≡ map_some site_part (call_site_of v)
unfolding dump_site call_site_of get_str get_u64
site_same v = elim (Option-cases (as_object v)) [
  | inl other ↦ rw (dump_site, call_site_of, other) refl
  | inr (o, object) ↦ elim (List-cases (str_at v (codes "file"))) [
    | inl nowhere ↦ rw (dump_site, call_site_of, object, nowhere) refl
    | inr (c, file, there) ↦
        rw
          (
            dump_site,
            call_site_of,
            object,
            there,
            snippet_same (items_at v (codes "snippet")),
            frame_stack_same (items_at v (codes "frame_stack")),
            stack_same (items_at v (codes "stack")),
          )
          refl
  ]
]

module _ (json : JsonText) where
  parsed_site_same :
      (raw : Text) → dump_parsed_site json raw ≡ map_some site_part (parse_call_site json raw)
  unfolding dump_parsed_site parse_call_site
  parsed_site_same [] = refl
  parsed_site_same (c ∷ raw) = elim (Option-cases (json.from_str (c ∷ raw))) [
    | inl bad ↦ rw (dump_parsed_site, parse_call_site, bad) refl
    | inr (v, parsed) ↦ rw (dump_parsed_site, parse_call_site, parsed) (site_same v)
  ]

  call_site_same :
      (p : RawPayload)
      → dump_call_site json p ≡ map_ok (map_some site_part) (decode_call_site json p)
  unfolding decode_call_site dump_call_site
  call_site_same (generic_json (err e)) = refl
  call_site_same (generic_json (ok r)) = elim (Result-cases (text_of r.call_site_json)) [
    | inr (e, bad) ↦ rw (decode_call_site, dump_call_site, bad) refl
    | inl (raw, read) ↦ rw (decode_call_site, dump_call_site, read) (ap ok (parsed_site_same raw))
  ]
  call_site_same p = ground arith

  payload_same : (p : RawPayload) → dump_payload json p ≡ decode_event_payload json p
  unfolding dump_payload decode_event_payload generic_payload
  payload_same (generic_json r) = refl
  payload_same p = ground arith

  event_same :
      (e : RawEvent) (x : Trace.EventJson)
      → decode_event json e ≡ ok x
      → dump_event json e ≡ ok (event_part x)
  unfolding decode_event dump_event
  event_same e x h = elim (Result-cases (decode_event_payload json e.payload)) [
    | inr (text, bad) ↦ absurd (cc (rw (decode_event, bad) at h))
    | inl (decoded, read) ↦ elim (Result-cases (decode_call_site json e.payload)) [
      | inr (text, bad) ↦ absurd (cc (rw (decode_event, read, bad) at h))
      | inl (site, found) ↦
          rw (dump_event, payload_same e.payload, read, call_site_same e.payload, found)
            (ap (λ r. map_ok event_part r) (rw (decode_event, read, found) at h))
    ]
  ]

frame_same :
    (f : RawFrame) (x : Trace.FrameJson) → decode_frame f ≡ ok x → dump_frame f ≡ ok (frame_part x)
unfolding decode_frame dump_frame dump_args first_summary
frame_same f x h = ground (arith)

meta_same :
    (json : JsonText) (m : RawMeta) (x : Trace.MetaJson)
    → decode_meta json m ≡ ok x
    → dump_meta m ≡ ok (meta_part x)
unfolding decode_meta dump_meta
meta_same json m x h = ground (arith)

-- The parts of a trace that decodes.
record Parts (json : JsonText) (root : RawTrace) (t : Trace.TraceJson) : Type 0 where
  raw_meta : RawMeta
  raw_frames : List RawFrame
  raw_events : List RawEvent
  has_meta : root.meta ≡ ok raw_meta
  has_frames : root.frames ≡ ok raw_frames
  has_events : root.events ≡ ok raw_events
  meta : decode_meta json raw_meta ≡ ok t.meta
  frames : collect decode_frame raw_frames ≡ ok t.frames
  events : collect (decode_event json) raw_events ≡ ok t.observability_events

decode_trace-Parts :
    (json : JsonText) (id : Text) (root : RawTrace) (t : Trace.TraceJson)
    → decode_trace json id root ≡ ok t
    → Parts json root t
unfolding decode_trace
decode_trace-Parts json id root t h = elim (Result-cases root.meta) [
  | inr (e, bad) ↦ absurd (cc (rw (decode_trace, bad) at h))
  | inl (m, has_meta) ↦ elim (Result-cases (decode_meta json m)) [
    | inr (e, bad) ↦ absurd (cc (rw (decode_trace, has_meta, bad) at h))
    | inl (meta, read) ↦ elim (Result-cases root.frames) [
      | inr (e, bad) ↦ absurd (cc (rw (decode_trace, has_meta, read, bad) at h))
      | inl (fs, has_frames) ↦ elim (Result-cases (collect decode_frame fs)) [
        | inr (e, bad) ↦ absurd (cc (rw (decode_trace, has_meta, read, has_frames, bad) at h))
        | inl (frames, framed) ↦ elim (Result-cases root.events) [
          | inr (e, bad) ↦
              absurd (cc (rw (decode_trace, has_meta, read, has_frames, framed, bad) at h))
          | inl (es, has_events) ↦ elim (Result-cases (collect (decode_event json) es)) [
            | inr (e, bad) ↦
                absurd
                  (cc (rw (decode_trace, has_meta, read, has_frames, framed, has_events, bad) at h))
            | inl (events, seen) ↦
                let whole =
                  rw (decode_trace, has_meta, read, has_frames, framed, has_events, seen) at h in
                record {
                  raw_meta = m;
                  raw_frames = fs;
                  raw_events = es;
                  has_meta = has_meta;
                  has_frames = has_frames;
                  has_events = has_events;
                  meta = read ∙ cc whole;
                  frames = framed ∙ cc whole;
                  events = seen ∙ cc whole;
                }
          ]
        ]
      ]
    ]
  ]
]

-- When the API's decoding of a trace succeeds, the dump's own copy of it succeeds too, whatever
-- the limit. Its JSON has as many of the first frames as the limit asks for and all events, with
-- the values of the API's, but not in the same shape: it lacks the trace's id, the hostname, the
-- request and the response of the meta block, and the flags and the event ids of each frame, and
-- it names a frame's args_summary and return_value_summary args and return_value.
pub dump_json_lem :
    (json : JsonText) (id : Text) (limit : ℕ) (root : RawTrace) (t : Trace.TraceJson)
    → decode_trace json id root ≡ ok t
    → dump_json json limit root ≡ ok (trace_part limit t)
unfolding dump_json
dump_json_lem json id limit root t h =
    let p = decode_trace-Parts json id root t h in
    let n = shown limit (length t.frames) in
    let same_length = collect-length decode_frame p.raw_frames t.frames p.frames in
    let frames =
      collect-take decode_frame dump_frame frame_part frame_same n p.raw_frames t.frames p.frames in
    let events =
      collect-map (decode_event json) (dump_event json) event_part (event_same json) p.raw_events
        t.observability_events p.events in
    rw
      (
        dump_json,
        p.has_meta,
        p.has_frames,
        p.has_events,
        ← same_length,
        frames,
        events,
        meta_same json p.raw_meta t.meta p.meta,
      )
      refl
