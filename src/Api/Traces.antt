-- ===== src/Api/Traces.antt =====
-- daemon/src/api.rs: the traces of the directory, listed, opened and deleted.
use php_periscope.Common.{
  ℕ, ◌+◌, Option, none, some, List, [], ◌∷◌, ◌++◌, Bool, true, false, not, ◌||◌, if◌then◌else◌, leb,
  ◌==◌, list_eq, unwrap_or, length, take,
}
use php_periscope.Common.Text.{Text, codes}
use php_periscope.Common.Results.{Result, ok, err}
use php_periscope.Common.Sort.{sort_by}
use php_periscope.Filter.{contains_text}
use php_periscope.Link.{LinkBus}
use php_periscope.Trace.{TraceJson}
use php_periscope.Decode.Raw.{RawEvent, RawPayload, generic_json, JsonText, text_or_empty}
use php_periscope.Decode.Meta.{is_empty_text}
use php_periscope.Decode.Events.{decode_trace}
use php_periscope.Api.Reply.{ApiResult, answer, refuse, not_found, ◌>>=◌, or_internal, with_context}
use php_periscope.Api.Disk.{
  Disk, File, Capnp, slash, has_char, join, read_dir, remove_file, exists, unless_fault, extension,
  file_stem, open_trace_file,
}

pub record ApiState : Type 0 where
  pub trace_dir : Text
  pub project_root : Text
  pub bus : LinkBus
  pub ui_dir : Option Text

-- `ApiState::new` and `ApiState::with_ui_dir`
unfoldable pub new_state : Text → Text → LinkBus → ApiState
new_state trace_dir project_root bus = record {
  trace_dir = trace_dir;
  project_root = project_root;
  bus = bus;
  ui_dir = none;
}

unfoldable pub with_ui_dir : Option Text → ApiState → ApiState
with_ui_dir ui_dir state = record state { ui_dir = ui_dir }

pub record TraceSummary : Type 0 where
  pub id : Text
  pub path : Text
  pub started_at_unix_micros : ℕ
  pub duration_micros : ℕ
  pub method : Text
  pub uri : Text
  pub status_code : ℕ
  pub frame_count : ℕ
  pub event_count : ℕ
  pub has_exception : Bool
  pub size_bytes : ℕ

abbrev pub cptrace : Text
cptrace = codes "cptrace"

-- `path.extension().and_then(|s| s.to_str()) == Some("cptrace")`
unfoldable pub is_trace : Text → Bool
is_trace name = elim (extension name) [ none ↦ false | some ext ↦ ext == cptrace ]

-- `trace_id_from_path`, of a path in the directory: the file name decides.
unfoldable pub trace_id_from_path : Text → Text
trace_id_from_path name = file_stem name

unfoldable pub is_exception : RawPayload → Bool
is_exception (generic_json (ok g)) = elim g.type_tag [
  | ok (some tag) ↦ tag == codes "exception"
  | _ ↦ false
]
is_exception _ = false

unfoldable pub any_exception : List RawEvent → Bool
any_exception [] = false
any_exception (e ∷ events) = is_exception e.payload || any_exception events

abbrev pub optional_field {ℓ} : {R A : Type ℓ} → A → (R → A) → Option (Result R) → ApiResult A
optional_field absent f none = answer absent
optional_field absent f (some r) = or_internal r >>= λ r. answer (f r)

record Requested : Type 0 where
  method : Text
  uri : Text

abbrev no_request : Requested
no_request = record { method = []; uri = [] }

-- `summarise_trace`: the directory, the file's name in it and its size.
unfoldable pub summarise_trace : Capnp → Disk → Text → Text → ℕ → ApiResult TraceSummary
summarise_trace capnp disk dir name size_bytes = do
  trace ← or_internal (open_trace_file capnp disk (join dir name))
  root ← or_internal trace.message
  meta ← or_internal root.meta
  request ←
      optional_field no_request
        (λ r. record { method = text_or_empty r.method; uri = text_or_empty r.uri }) meta.request
  status_code ← optional_field 0 (λ r. r.status_code) meta.response
  frames ← or_internal root.frames
  events ← or_internal root.events
  answer (record {
    id = trace_id_from_path name;
    path = join dir name;
    started_at_unix_micros = meta.started_at_unix_micros;
    duration_micros = meta.duration_micros;
    method = request.method;
    uri = request.uri;
    status_code = status_code;
    frame_count = length frames;
    event_count = length events;
    has_exception = any_exception events;
    size_bytes = size_bytes;
  })

-- The loop of `list_traces` that collects the entries.
unfoldable pub trace_entries : List (Text × File) → ApiResult (List (Text × File))
trace_entries [] = answer []
trace_entries ((name, file) ∷ read) = do
  entry ← or_internal (unless_fault file.entry_fault name)
  if not (is_trace entry) then trace_entries read else (do
    md ← or_internal (unless_fault file.metadata_fault file)
    rest ← trace_entries read
    answer ((entry, md) ∷ rest))

-- `None` stands before every time.
unfoldable pub time_le : Option ℕ → Option ℕ → Bool
time_le none t = true
time_le (some s) none = false
time_le (some s) (some t) = leb s t

-- The summaries of the entries; an unreadable trace is skipped.
unfoldable pub summaries_of : Capnp → Disk → Text → List (Text × File) → List TraceSummary
summaries_of capnp disk dir [] = []
summaries_of capnp disk dir ((name, md) ∷ entries) =
    let rest = summaries_of capnp disk dir entries in
    elim (summarise_trace capnp disk dir name (length md.bytes)) [
      | answer s ↦ s ∷ rest
      | refuse _ ↦ rest
    ]

unfoldable pub newest_first : List (Text × File) → List (Text × File)
newest_first = sort_by (λ a b. time_le b.1.modified a.1.modified)

unfoldable pub list_traces : Capnp → ApiState → Disk → Option ℕ → ApiResult (List TraceSummary)
list_traces capnp state disk limit = do
  read ←
      or_internal (
        with_context (read_dir disk state.trace_dir)
          (codes "reading trace dir " ++ state.trace_dir))
  entries ← trace_entries read
  answer
      (summaries_of capnp disk state.trace_dir (take (unwrap_or limit 50) (newest_first entries)))

unfoldable pub is_invalid_id : Text → Bool
is_invalid_id id = has_char slash id || contains_text id (codes "..") || is_empty_text id

unfoldable pub trace_path_for : ApiState → Disk → Text → ApiResult Text
trace_path_for state disk id =
    let path = join state.trace_dir (id ++ codes ".cptrace") in
    if is_invalid_id id
    then refuse (not_found (codes "invalid trace id"))
    else if not (exists disk path)
    then refuse (not_found (codes "trace not found"))
    else answer path

unfoldable pub open_trace : Capnp → JsonText → ApiState → Disk → Text → ApiResult TraceJson
open_trace capnp json state disk id = do
  path ← trace_path_for state disk id
  trace ← or_internal (open_trace_file capnp disk path)
  root ← or_internal trace.message
  or_internal (decode_trace json id root)

-- `delete_trace`: the disk that is left, and how many files went.
unfoldable pub delete_trace : ApiState → Disk → Text → ApiResult (Disk × ℕ)
delete_trace state disk id = do
  path ← trace_path_for state disk id
  left ← or_internal (remove_file disk path)
  answer (left, 1)

-- The loop of `clear_traces`, with the disk and the count so far. An entry that cannot be read ends
-- it; a file that cannot be removed does not.
unfoldable pub clear_loop : Text → List (Text × File) → Disk → ℕ → Disk × ApiResult ℕ
clear_loop dir [] disk count = (disk, answer count)
clear_loop dir ((name, file) ∷ read) disk count =
    let skip = clear_loop dir read disk count in
    elim (unless_fault file.entry_fault name) [
      | err e ↦ (disk, or_internal (err e))
      | ok entry ↦ if not (is_trace entry) then skip else elim (remove_file disk (join dir entry)) [
        | err _ ↦ skip
        | ok left ↦ clear_loop dir read left (count + 1)
      ]
    ]

-- `clear_traces`: what is removed stays removed when it ends with an error.
unfoldable pub clear_traces : ApiState → Disk → Disk × ApiResult ℕ
clear_traces state disk = elim (read_dir disk state.trace_dir) [
  | err e ↦ (disk, or_internal (err e))
  | ok read ↦ clear_loop state.trace_dir read disk 0
]
