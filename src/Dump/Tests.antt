-- ===== src/Dump/Tests.antt =====
-- daemon/src/bin/dump.rs: the theorems at a trace of one frame and one event.
use php_periscope.Common.{none, some, [], ◌∷◌, ◌++◌, ◌≡◌, refl, arith}
use php_periscope.Common.Text.{Text, codes}
use php_periscope.Common.Results.{ok, collect}
use php_periscope.Json.{string}
use php_periscope.Trace
use php_periscope.Decode.Raw.{
  RawTrace, RawMeta, RawFrame, RawEvent, RawText, generic_json, typed, JsonText, read_text, text_of,
  text_or_empty, opaque_or_empty,
}
use php_periscope.Decode.Meta.{decode_meta}
use php_periscope.Decode.Frames.{decode_frame, first_summary}
use php_periscope.Decode.Events.{
  generic_payload, parse_call_site, decode_event_payload, decode_call_site, decode_event,
  decode_trace,
}
use php_periscope.Dump.Agree.{trace_part, dump_json_lem}
use php_periscope.Dump.Decode.{dump_payload, dump_call_site, dump_parsed_site}
use php_periscope.Dump.Main.{dump_json}
use php_periscope.Dump.Print.{print_event, panicked}
use php_periscope.Dump.Preview.{print_event_panics}

abbrev quoting_json : JsonText
quoting_json = record {
  from_str = λ t. none;
  print = λ v. elim v [ string s ↦ b'"' ∷ s ++ b'"' ∷ [] | _ ↦ [] ];
}

abbrev one_text : Text → RawText
one_text t = ok (some t)

abbrev one_meta : RawMeta
one_meta = record {
  php_version = one_text (codes "8.3");
  periscope_version = one_text (codes "1");
  sapi = one_text (codes "cli");
  entry_point = one_text [];
  working_dir = one_text [];
  hostname = ok none;
  pid = 7;
  started_at_unix_micros = 100;
  duration_micros = 9;
  request = none;
  response = none;
}

abbrev one_frame : RawFrame
one_frame = record {
  id = 1;
  parent_id = 0;
  function = one_text (codes "main");
  file = one_text (codes "a.php");
  line = 3;
  enter_micros = 2;
  exit_micros = 8;
  depth = 0;
  flags = 0;
  args = ok [];
  return_value = ok typed;
  observability_event_ids = ok (1 ∷ []);
}

abbrev one_event : Text → RawEvent
one_event raw = record {
  id = 1;
  at_micros = 4;
  in_frame_id = 1;
  payload = generic_json (
      ok (record {
        type_tag = one_text (codes "log");
        payload_json = one_text raw;
        call_site_json = one_text [];
      }));
}

abbrev one_root : RawTrace
one_root = record {
  meta = ok one_meta;
  frames = ok (one_frame ∷ one_frame ∷ []);
  events = ok (one_event (codes "x") ∷ []);
}

abbrev one_decoded : Trace.FrameJson
one_decoded = record {
  id = 1;
  parent_id = 0;
  function = codes "main";
  file = codes "a.php";
  line = 3;
  enter_micros = 2;
  exit_micros = 8;
  duration_micros = 6;
  depth = 0;
  flags = 0;
  args_summary = none;
  return_value_summary = none;
  observability_event_ids = 1 ∷ [];
}

abbrev one_trace : Trace.TraceJson
one_trace = record {
  id = codes "t";
  meta = record {
    php_version = codes "8.3";
    periscope_version = codes "1";
    sapi = codes "cli";
    entry_point = [];
    working_dir = [];
    hostname = [];
    pid = 7;
    started_at_unix_micros = 100;
    duration_micros = 9;
    request = none;
    response = none;
  };
  frames = one_decoded ∷ one_decoded ∷ [];
  observability_events =
      record {
        id = 1;
        at_micros = 4;
        in_frame_id = 1;
        type_tag = codes "log";
        payload = string (codes "x");
        user_call_site = none;
      }
      ∷ [];
}

decode_trace_one : decode_trace quoting_json (codes "t") one_root ≡ ok one_trace
unfolding decode_trace decode_meta decode_frame decode_event decode_event_payload decode_call_site
    generic_payload parse_call_site text_of text_or_empty read_text first_summary opaque_or_empty
    collect
decode_trace_one = refl

dump_json_lem_example : dump_json quoting_json 1 one_root ≡ ok (trace_part 1 one_trace)
dump_json_lem_example = dump_json_lem quoting_json (codes "t") 1 one_root one_trace decode_trace_one

-- 115 letters, which with a quotation mark end one byte before the cut.
abbrev letters : Text
letters =
    codes
      "aaaaaaaaaaaaaaaaaaaaaaaaaaaaaaaaaaaaaaaaaaaaaaaaaaaaaaaaaaaaaaaaaaaaaaaaaaaaaaaaaaaaaaaaaaaaaaaaaaaaaaaaaaaaaaaaaaa"

print_event_panics_example :
    print_event quoting_json (λ n. []) (one_event (letters ++ 0xe9 ∷ codes "ete"))
    ≡ record { lines = []; end = panicked }
unfolding dump_payload dump_call_site dump_parsed_site text_of read_text
print_event_panics_example =
    print_event_panics quoting_json (λ n. []) (one_event (letters ++ 0xe9 ∷ codes "ete"))
      (codes "log") (string (letters ++ 0xe9 ∷ codes "ete")) none (b'"' ∷ letters) 0xe9
      (codes "ete\"") refl (λ e. cc e) refl refl (omega arith) (omega arith) (omega arith)
