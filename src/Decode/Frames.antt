-- ===== src/Decode/Frames.antt =====
-- daemon/src/trace_view.rs: `decode_frame`.
use php_periscope.Common.{◌-◌, Option, none, List, [], ◌∷◌, and_then}
use php_periscope.Common.Text.{Text}
use php_periscope.Common.Results.{Result, ok, ◌>>=◌}
use php_periscope.Trace.{FrameJson}
use php_periscope.Decode.Raw.{RawFrame, RawValue, text_of, ok_of, opaque_or_empty}

-- `.iter().next().and_then(|a| a.get_value().ok().and_then(opaque_or_empty))`
unfoldable pub first_summary : List (Result RawValue) → Option Text
first_summary [] = none
first_summary (a ∷ _) = and_then (ok_of a) opaque_or_empty

-- The subtraction of the times saturates at 0, as that of natural numbers does.
unfoldable pub decode_frame : RawFrame → Result FrameJson
decode_frame f = do
  function ← text_of f.function
  file ← text_of f.file
  args ← f.args
  event_ids ← f.observability_event_ids
  ok (record {
    id = f.id;
    parent_id = f.parent_id;
    function = function;
    file = file;
    line = f.line;
    enter_micros = f.enter_micros;
    exit_micros = f.exit_micros;
    duration_micros = f.exit_micros - f.enter_micros;
    depth = f.depth;
    flags = f.flags;
    args_summary = first_summary args;
    return_value_summary = and_then (ok_of f.return_value) opaque_or_empty;
    observability_event_ids = event_ids;
  })
