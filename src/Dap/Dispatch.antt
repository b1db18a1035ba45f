-- ===== src/Dap/Dispatch.antt =====
-- daemon/src/dap.rs: the handlers that open a trace or show its files, and `handle`.
use php_periscope.Common.{
  ℕ, Option, none, some, List, [], ◌∷◌, ◌++◌, true, false, not, ◌==◌, list_eq, nat_eq,
  if◌then◌else◌, length, map, unwrap_or, map_some, and_then,
}
use php_periscope.Common.Text.{Text, codes}
use php_periscope.Common.Results.{Result, ok, err}
use php_periscope.Json.{Value, null, string, value_get, as_str}
use php_periscope.Trace.{TraceJson, FrameJson}
use php_periscope.Replay.Index.{build}
use php_periscope.Replay.Cursor.{into, over, out, back, new, stack}
use php_periscope.Dap.Session.{
  DapMessage, DapServer, write_response, write_event, stopped_body, obj, arr, num,
}
use php_periscope.Dap.Requests.{
  Handled, handled, with_state, moved_to, on_initialize, on_threads, on_step, on_continue,
  on_set_breakpoints, on_evaluate, on_scopes, on_variables,
}

-- What the handlers take from outside the file.
pub record Env : Type 0 where
  -- the trace at a path: `none` when nothing is there, an error when it does not decode
  pub open_trace : Text → Option (Result TraceJson)
  -- `Path::file_name`
  pub file_name : Text → Option Text

module _ (env : Env) where
  abbrev pub short_name : Text → Text
  short_name path = unwrap_or (env.file_name path) path

  abbrev pub stack_frame : Text → FrameJson → Value
  stack_frame hint f = obj (
      (codes "id", num f.id)
      ∷ (codes "name", string f.function)
      ∷ (codes "line", num f.line)
      ∷ (codes "column", num 1)
      ∷ (
        codes "source",
        obj ((codes "name", string (short_name f.file)) ∷ (codes "path", string f.file) ∷ []),
      )
      ∷ (codes "presentationHint", string hint)
      ∷ [])

  abbrev pub stack_frames : List FrameJson → List Value
  stack_frames [] = []
  stack_frames (f ∷ fs) = stack_frame (codes "normal") f ∷ map (stack_frame (codes "subtle")) fs

  unfoldable pub on_stack_trace : ℕ → ℕ → DapServer → Handled
  on_stack_trace fuel request_seq s = elim s.state.cursor [
    | none ↦ handled (
        write_response request_seq (codes "stackTrace") false none (some (codes "no trace loaded"))
          s)
    | some c ↦
        map_some
          (λ frames. ok (
            write_response request_seq (codes "stackTrace") true
              (some (
                obj (
                  (codes "stackFrames", arr (stack_frames frames))
                  ∷ (codes "totalFrames", num (length frames))
                  ∷ [])))
              none s))
          (stack fuel c)
  ]

  -- `on_launch` once the trace is decoded, on fuel for `TraceIndex::build`.
  unfoldable pub launch : ℕ → ℕ → TraceJson → DapServer → Handled
  launch fuel request_seq trace s =
      map_some
        (λ index. ok (
          write_event (codes "stopped") (some (stopped_body (codes "entry"))) (
            write_response request_seq (codes "launch") true none none
              (with_state s (moved_to s.state (some (new index)))))))
        (build fuel trace)

  abbrev pub no_trace : Text
  no_trace =
      codes
        "launch.arguments.tracePath is required and must point to an existing .cptrace file (live launch is Phase 8)"

  -- `args.get("tracePath").or_else(|| args.get("trace"))`
  abbrev pub trace_argument : Value → Option Value
  trace_argument args = elim (value_get args (codes "tracePath")) [
    | some v ↦ some v
    | none ↦ value_get args (codes "trace")
  ]

  unfoldable pub on_launch : ℕ → ℕ → Value → DapServer → Handled
  on_launch fuel request_seq args s =
      elim (and_then (and_then (trace_argument args) as_str) env.open_trace) [
        | none ↦ handled (write_response request_seq (codes "launch") false none (some no_trace) s)
        | some opened ↦ elim opened [
          | err e ↦ some (err e)
          | ok trace ↦ launch fuel request_seq trace s
        ]
      ]

  -- The arms of the `match` on the command.
  unfoldable pub dispatch : ℕ → ℕ → Text → Value → DapServer → Handled
  dispatch fuel seq command args s =
      if command == codes "initialize"
      then on_initialize seq s
      else if command == codes "launch"
      then on_launch fuel seq args s
      else if command == codes "configurationDone"
      then handled (write_response seq (codes "configurationDone") true none none s)
      else if command == codes "threads"
      then on_threads seq s
      else if command == codes "stackTrace"
      then on_stack_trace fuel seq s
      else if command == codes "scopes"
      then on_scopes seq args s
      else if command == codes "variables"
      then on_variables seq args s
      else if command == codes "continue"
      then on_continue seq (codes "continue") false s
      else if command == codes "next"
      then on_step seq (codes "next") over s
      else if command == codes "stepIn"
      then on_step seq (codes "stepIn") into s
      else if command == codes "stepOut"
      then on_step seq (codes "stepOut") out s
      else if command == codes "stepBack"
      then on_step seq (codes "stepBack") back s
      else if command == codes "reverseContinue"
      then on_continue seq (codes "reverseContinue") true s
      else if command == codes "evaluate"
      then on_evaluate seq args s
      else if command == codes "disconnect"
      then handled (write_response seq (codes "disconnect") true none none s)
      else if command == codes "setBreakpoints"
      then on_set_breakpoints seq args s
      else handled (
          write_response seq command false none
            (some (codes "unsupported DAP command: " ++ command)) s)

  unfoldable pub handle : ℕ → DapMessage → DapServer → Handled
  handle fuel msg s =
      if not (msg.msg_type == codes "request")
      then handled s
      else dispatch fuel msg.seq (unwrap_or msg.command []) (unwrap_or msg.arguments null) s
