-- ===== src/Api/Views.antt =====
-- daemon/src/api.rs: the handlers that show parts of one trace.
use php_periscope.Common.{
  ℕ, Option, none, some, List, [], ◌∷◌, ◌++◌, Bool, false, not, if◌then◌else◌, ltb, nat_beq, ◌==◌,
  list_eq, and_then, unwrap_or, length, take, drop, retain,
}
use php_periscope.Common.Text.{Text, codes}
use php_periscope.Common.Results.{ok, err}
use php_periscope.Common.Sort.{sort_by_key}
use php_periscope.Json.{
  Value, number, pos_int, string, array, object, Items, nil, cons, Fields, end, field,
}
use php_periscope.Trace.{
  FrameJson, EventJson, CallSiteJson, SnippetLineJson, StackFrameJson, TraceJson,
}
use php_periscope.Filter
use php_periscope.Filter.{TextOps, trim}
use php_periscope.Grouping.{EventGroup, Digest, group_events}
use php_periscope.Replay.Index.{build}
use php_periscope.Replay.State.{ReconstructedState, at_time, at_frame}
use php_periscope.Api.Reply.{ApiResult, answer, refuse, not_found, bad_request, ◌>>=◌}

pub record Page (A : Type 0) : Type 0 where
  pub total : ℕ
  pub offset : ℕ
  pub limit : ℕ
  pub items : List A

pub record PaginateQuery : Type 0 where
  pub limit : Option ℕ
  pub offset : Option ℕ

-- `usize::min`
abbrev pub at_most : ℕ → ℕ → ℕ
at_most a b = if ltb b a then b else a

-- `list_frames`, of the opened trace, as are the handlers below.
unfoldable pub list_frames : TraceJson → PaginateQuery → Page FrameJson
list_frames trace q =
    let total = length trace.frames in
    let offset = at_most (unwrap_or q.offset 0) total in
    let limit = unwrap_or q.limit 500 in
    record {
      total = total;
      offset = offset;
      limit = limit;
      items = take limit (drop offset trace.frames);
    }

-- `Iterator::find`
unfoldable pub find_frame : ℕ → List FrameJson → Option FrameJson
find_frame frame_id [] = none
find_frame frame_id (f ∷ frames) =
    let rest = find_frame frame_id frames in if nat_beq f.id frame_id then some f else rest

unfoldable pub get_frame : TraceJson → ℕ → ApiResult FrameJson
get_frame trace frame_id = elim (find_frame frame_id trace.frames) [
  | none ↦ refuse (not_found (codes "frame not found"))
  | some frame ↦ answer frame
]

unfoldable pub of_type : Text → List EventJson → List EventJson
of_type t = retain (λ e. e.type_tag == t)

unfoldable pub list_queries : TraceJson → List EventJson
list_queries trace = of_type (codes "sql") trace.observability_events

unfoldable pub list_exceptions : TraceJson → List EventJson
list_exceptions trace = of_type (codes "exception") trace.observability_events

pub record EventQuery : Type 0 where
  pub type_of : Option Text
  pub group : Option Bool
  pub filter : Option Text

pub data EventsResponse : Type 0 where
  raw : List EventJson → EventsResponse
  grouped : List EventGroup → EventsResponse

-- What `Serialize` makes of a number, of a list and of the structs of an event; `Value` keeps the
-- members of an object by key, so their order is that of the keys.
abbrev pub number_value : ℕ → Value
number_value n = number (pos_int n)

unfoldable pub array_of {ℓ} : {A : Type ℓ} → (A → Value) → List A → Items
array_of f [] = nil
array_of f (x ∷ xs) = cons (f x) (array_of f xs)

unfoldable pub snippet_value : SnippetLineJson → Value
snippet_value l =
    object (
      field (codes "number") (number_value l.number) (field (codes "source") (string l.source) end))

unfoldable pub stack_value : StackFrameJson → Value
stack_value f = object (
    field (codes "file") (string f.file) (
      field (codes "function") (string f.function)
        (field (codes "line") (number_value f.line) end)))

-- An empty `stack` is skipped.
unfoldable pub stack_field : List StackFrameJson → Fields
stack_field [] = end
stack_field (f ∷ fs) = field (codes "stack") (array (array_of stack_value (f ∷ fs))) end

unfoldable pub site_value : CallSiteJson → Value
site_value c = object (
    field (codes "file") (string c.file) (
      field (codes "frame_stack") (array (array_of number_value c.frame_stack)) (
        field (codes "line") (number_value c.line) (
          field (codes "snippet") (array (array_of snippet_value c.snippet))
            (stack_field c.stack)))))

-- A missing `user_call_site` is skipped.
unfoldable pub site_field : Option CallSiteJson → Fields
site_field none = end
site_field (some c) = field (codes "user_call_site") (site_value c) end

unfoldable pub event_value : EventJson → Value
event_value e = object (
    field (codes "at_micros") (number_value e.at_micros) (
      field (codes "id") (number_value e.id) (
        field (codes "in_frame_id") (number_value e.in_frame_id) (
          field (codes "payload") e.payload
            (field (codes "type") (string e.type_tag) (site_field e.user_call_site))))))

-- The events of the type asked for, if one is.
unfoldable pub typed_events : Option Text → List EventJson → List EventJson
typed_events none events = events
typed_events (some t) events = of_type t events

-- The expression of `?filter=`, none when it is blank.
unfoldable pub filter_text : TextOps → Option Text → Option Text
filter_text ops filter =
    and_then filter (λ f. elim (trim ops f) [ [] ↦ none | c ∷ s ↦ some (c ∷ s) ])

unfoldable pub keep_matching : TextOps → Filter.Filter → List EventJson → List EventJson
keep_matching ops filter events =
    if not (Filter.is_empty filter)
    then retain (λ e. Filter.matches ops filter (event_value e)) events
    else events

unfoldable pub filter_events : TextOps → Option Text → List EventJson → ApiResult (List EventJson)
filter_events ops none events = answer events
filter_events ops (some expr) events = elim (Filter.parse ops expr) [
  | err e ↦ refuse (bad_request e)
  | ok filter ↦ answer (keep_matching ops filter events)
]

unfoldable pub list_events : TextOps → Digest → TraceJson → EventQuery → ApiResult EventsResponse
list_events ops digest trace q = do
  events ←
      filter_events ops (filter_text ops q.filter)
        (typed_events q.type_of trace.observability_events)
  answer (if unwrap_or q.group false then grouped (group_events digest events) else raw events)

pub record TimelineEntry : Type 0 where
  pub at_micros : ℕ
  pub kind : Text
  pub id : ℕ
  pub label : Text

unfoldable pub frame_entries : List FrameJson → List TimelineEntry
frame_entries [] = []
frame_entries (f ∷ frames) =
    record { at_micros = f.enter_micros; kind = codes "frame_enter"; id = f.id; label = f.function }
    ∷ record { at_micros = f.exit_micros; kind = codes "frame_exit"; id = f.id; label = f.function }
    ∷ frame_entries frames

unfoldable pub event_entries : List EventJson → List TimelineEntry
event_entries [] = []
event_entries (e ∷ events) =
    record { at_micros = e.at_micros; kind = codes "event"; id = e.id; label = e.type_tag }
    ∷ event_entries events

unfoldable pub timeline : TraceJson → List TimelineEntry
timeline trace =
    sort_by_key (λ e. e.at_micros)
      (frame_entries trace.frames ++ event_entries trace.observability_events)

pub record StateQuery : Type 0 where
  pub at : Option ℕ
  pub frame_id : Option ℕ

-- `get_state`, on the fuel of the loops of the index: `none` is fuel that ran out.
unfoldable pub get_state : ℕ → TraceJson → StateQuery → Option ReconstructedState
get_state fuel trace q = and_then (build fuel trace) (λ index. elim q.frame_id [
  | some fid ↦ at_frame index fuel fid
  | none ↦ at_time index fuel (unwrap_or q.at 0)
])
