-- ===== src/Api/Tests.antt =====
-- daemon/src/api.rs: the theorems at a directory of two traces.
use php_periscope.Common.{
  ℕ, ◌+◌, ◌-◌, ◌≤◌, none, some, List, [], ◌∷◌, ◌++◌, ◌≡◌, ◌⊎◌, refl, arith, true, false, ltb, leb,
  nat_beq, list_eq, length, retain, count_where, get_elem?, All,
}
use php_periscope.Common.Text.{Text, codes}
use php_periscope.Common.Results.{ok}
use php_periscope.Common.Maps.{get, insert}
use php_periscope.Common.Numbers.{
  rsplit_once, split_once, parse_u64, parse_digits, digit_of, show_nat, digits,
}
use php_periscope.Common.Sort.{IsSorted, by_key}
use php_periscope.Json.{number, pos_int, object, Fields, end, field, fields_get}
use php_periscope.Trace.{FrameJson, TraceJson}
use php_periscope.Api.Reply.{answer}
use php_periscope.Api.Disk.{
  Disk, File, read_dir, children, child_name, strip_prefix, slashed, extension, file_stem, join,
  read, write,
}
use php_periscope.Api.Traces.{ApiState, is_trace, clear_traces}
use php_periscope.Api.Views.{
  PaginateQuery, TimelineEntry, list_frames, timeline, frame_entries, event_entries,
}
use php_periscope.Api.Source.{
  FileQuery, slice_text, lines_from, end_line, line_window, select_lines,
}
use php_periscope.Api.Metrics.{window_micros, find_matching_trace, match_delta}
use php_periscope.Api.Clear.{clear_traces_lem}
use php_periscope.Api.Pages.{list_frames_lem}
use php_periscope.Api.Timeline.{timeline_lem}
use php_periscope.Api.Lines.{slice_text_lem}
use php_periscope.Api.Metrics.{
  ClientMetricsBody, JsonBytes, post_client_metrics, get_client_metrics, metrics_id, match_loop,
  merged_metrics, insert_field, insert_all, existing_metrics, text_lt,
}
use php_periscope.Api.Sidecar.{post_get_lem}
use php_periscope.Filter.{starts_with}
use php_periscope.Api.Router.{Host, serve, post_metrics}
use php_periscope.Api.Inside.{serve_inside}
use php_periscope.Api.Nearest.{IsNearest, find_matching_trace_lem}

abbrev traces_dir : Text
traces_dir = codes "/t"

abbrev plain_file : List ℕ → File
plain_file bytes = record {
  bytes = bytes;
  modified = some 5;
  entry_fault = none;
  metadata_fault = none;
  read_fault = none;
  remove_fault = none;
}

abbrev two_traces : Disk
two_traces = record {
  files =
      (codes "/t/1000-7.cptrace", plain_file (1 ∷ []))
      ∷ (codes "/t/notes.txt", plain_file [])
      ∷ (codes "/t/2000-7.cptrace", plain_file (2 ∷ []))
      ∷ (codes "/etc/hosts", plain_file [])
      ∷ [];
  dirs = traces_dir ∷ [];
  no_such = codes "no such file";
  write_fault = λ path. none;
  clock = none;
  canonicalize = λ path. some path;
}

abbrev api_state : ApiState
api_state = record {
  trace_dir = traces_dir;
  project_root = codes "/app";
  bus = record { outbound = []; sent = []; ui_sent = [] };
  ui_dir = none;
}

abbrev three_entries : List (Text × File)
three_entries =
    (codes "1000-7.cptrace", plain_file (1 ∷ []))
    ∷ (codes "notes.txt", plain_file [])
    ∷ (codes "2000-7.cptrace", plain_file (2 ∷ []))
    ∷ []

listed_lem : read_dir two_traces traces_dir ≡ ok three_entries
unfolding read_dir children child_name strip_prefix slashed
listed_lem = refl

clear_traces_lem_example :
    ((clear_traces api_state two_traces).1 ≡ answer 2)
    × (get (clear_traces api_state two_traces).0.files (codes "/t/1000-7.cptrace") ≡ none)
unfolding is_trace extension rsplit_once child_name strip_prefix slashed get
clear_traces_lem_example =
    clear_traces_lem api_state two_traces three_entries (codes "/t/1000-7.cptrace") listed_lem
      (refl, (refl, (refl, tt))) (refl, (refl, (refl, (refl, tt))))

abbrev frame_of : ℕ → FrameJson
frame_of id = record {
  id = id;
  parent_id = 0;
  function = codes "f";
  file = [];
  line = 1;
  enter_micros = id;
  exit_micros = 10;
  duration_micros = 10 - id;
  depth = 0;
  flags = 0;
  args_summary = none;
  return_value_summary = none;
  observability_event_ids = [];
}

abbrev three_frames : TraceJson
three_frames = record {
  id = codes "t";
  meta = record {
    php_version = codes "8.3";
    periscope_version = codes "1";
    sapi = codes "cli";
    entry_point = [];
    working_dir = [];
    hostname = [];
    pid = 1;
    started_at_unix_micros = 0;
    duration_micros = 9;
    request = none;
    response = none;
  };
  frames = frame_of 3 ∷ frame_of 2 ∷ frame_of 1 ∷ [];
  observability_events = [];
}

abbrev second_page : PaginateQuery
second_page = record { limit = some 2; offset = some 1 }

list_frames_lem_example :
    let p = list_frames three_frames second_page in
    (p.total ≡ 3)
    × (p.offset ≤ 3)
    × (length p.items ≡ 2)
    × (get_elem? p.items 1 ≡ some (frame_of 1))
unfolding list_frames
list_frames_lem_example = list_frames_lem three_frames second_page 1

timeline_lem_example :
    let first = λ (e : TimelineEntry). nat_beq e.id 1 in
    IsSorted (by_key (λ (e : TimelineEntry). e.at_micros)) (timeline three_frames)
    × (count_where first (timeline three_frames) ≡ 2)
    × (retain (λ (e : TimelineEntry). nat_beq e.at_micros 2) (timeline three_frames)
        ≡ record { at_micros = 2; kind = codes "frame_enter"; id = 2; label = codes "f" } ∷ [])
unfolding frame_entries event_entries retain
timeline_lem_example = timeline_lem three_frames (λ (e : TimelineEntry). nat_beq e.id 1) 2

abbrev around_two : FileQuery
around_two = record { path = codes "a.php"; line = some 2; radius = some 1 }

abbrev four_lines : Text
four_lines = codes "a\nb\nc\nd\n"

slice_text_lem_example :
    let s = slice_text (codes "/app/a.php") 0 around_two four_lines in
    (1 ≤ s.start_line)
    × (s.end_line ≤ 4)
    × (get_elem? s.lines 2 ≡ some (record { number = 3; source = codes "c" }))
unfolding slice_text lines_from end_line line_window select_lines
slice_text_lem_example = slice_text_lem (codes "/app/a.php") 0 around_two four_lines 2 (omega arith)

find_matching_trace_lem_example :
    (All (λ e. match_delta 7 1900 e ≡ none) three_entries
      × (find_matching_trace two_traces traces_dir 7 1900 ≡ none))
    ⊎ ((d : ℕ) × (id : Text) × (find_matching_trace two_traces traces_dir 7 1900 ≡ some id)
        × (d ≤ window_micros)
        × IsNearest 7 1900 three_entries d id)
find_matching_trace_lem_example =
    find_matching_trace_lem two_traces traces_dir 7 1900 three_entries listed_lem

-- A codec for the one object that is posted and stored.
abbrev constant_json : JsonBytes
constant_json = record {
  from_slice = λ bytes. some (
      object (
        field (codes "lcp") (number (pos_int 12)) (
          field (codes "pid") (number (pos_int 7))
            (field (codes "started_at_unix_micros") (number (pos_int 1900)) end))));
  to_vec = λ v. [];
}

abbrev posted : ClientMetricsBody
posted = record {
  pid = 7;
  started_at_unix_micros = 1900;
  extra = object (field (codes "lcp") (number (pos_int 12)) end);
}

abbrev host : Host
host = record {
  capnp = record { read_message = λ bytes. none };
  json_text = record { from_str = λ t. none; print = λ v. [] };
  json_bytes = constant_json;
  text_ops = record {
    is_whitespace = λ c. false;
    is_alphanumeric = λ c. true;
    to_lowercase = λ s. s;
    to_json = λ v. [];
    as_f64 = λ n. none;
    parse_f64 = λ s. none;
    close_to = nat_beq;
  };
  digest = record { to_json = λ v. []; hex_digest = λ s. s };
  std = record {
    floats = record { as_f64 = λ n. 0; add = λ a b. a + b; at_least = λ a b. leb b a };
    less = ltb;
    thousandth = λ n. n;
    show_nat = λ n. [];
    show_rounded = λ f. [];
    is_whitespace = λ c. false;
    into_iter = λ l. l;
  };
  floats = record { as_f64 = λ n. 0; add = λ a b. a + b; at_least = λ a b. leb b a };
  from_utf8_lossy = λ bytes. bytes;
  version = codes "1";
  command = [];
  run = λ command dir. none;
  fuel = 10;
}

serve_inside_example :
    get (serve host api_state (post_metrics posted) two_traces).0.files (codes "/etc/hosts")
    ≡ some (plain_file [])
unfolding get child_name strip_prefix slashed
serve_inside_example =
    serve_inside host api_state (post_metrics posted) two_traces (codes "/etc/hosts") refl

abbrev stored : Disk
stored = record two_traces {
  files =
      two_traces.files
      ++ (codes "/t/2000-7.client-metrics.json", record (plain_file []) { modified = none }) ∷ [];
}

posted_lem :
    post_client_metrics constant_json api_state two_traces posted ≡ answer (stored, codes "2000-7")
unfolding post_client_metrics metrics_id find_matching_trace match_loop match_delta read_dir
    children child_name strip_prefix slashed join write insert get merged_metrics insert_field
    insert_all existing_metrics read file_stem extension is_trace rsplit_once split_once parse_u64
    parse_digits digit_of show_nat digits starts_with
posted_lem = refl

post_get_lem_example :
    (map : Fields) × (get_client_metrics constant_json api_state stored (codes "2000-7")
      ≡ answer (object map))
    × (fields_get map (codes "lcp") ≡ some (number (pos_int 12)))
unfolding existing_metrics read get fields_get join slashed merged_metrics insert_field insert_all
    text_lt
post_get_lem_example =
    post_get_lem constant_json api_state two_traces stored posted (codes "2000-7") (codes "lcp")
      refl refl posted_lem
