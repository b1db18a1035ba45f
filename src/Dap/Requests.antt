-- ===== src/Dap/Requests.antt =====
-- daemon/src/dap.rs: the handlers of the requests. A handler returns `none` where it would panic
-- or where the fuel for a chain of parents runs out, and an error where it ends the session.
use php_periscope.Common.{
  ℕ, ◌+◌, ◌%◌, ◌^◌, Option, none, some, List, [], ◌∷◌, ◌++◌, Bool, true, false, not, ◌&&◌, ◌==◌,
  list_eq, nat_eq, if◌then◌else◌, map, retain, unwrap_or, map_some, and_then,
}
use php_periscope.Common.Text.{Text, codes}
use php_periscope.Common.Results.{Result, ok}
use php_periscope.Common.Maps.{get, insert}
use php_periscope.Json.{Value, bool, string, value_get, as_array, get_str, get_u64}
use php_periscope.Trace.{FrameJson}
use php_periscope.Link.{LinkBus, set_breakpoints, continue, broadcast_to_extensions}
use php_periscope.Replay.Index.{frame}
use php_periscope.Replay.Cursor.{
  ReplayCursor, BreakpointSet, StepKind, back, contains, step, forward_continue, reverse_continue,
}
use php_periscope.Dap.Session.{
  DapServer, SessionState, write_response, write_event, stopped_body, obj, arr, num,
}

abbrev pub u32_mod : ℕ
u32_mod = 2 ^ 32

abbrev pub Handled : Type 0
Handled = Option (Result DapServer)

abbrev pub handled : DapServer → Handled
handled s = some (ok s)

abbrev pub with_state : DapServer → SessionState → DapServer
with_state s state = record s { state = state }

abbrev pub flags : List (Text × Value)
flags =
    (codes "supportsStepBack", bool true)
    ∷ (codes "supportsRestartFrame", bool false)
    ∷ (codes "supportsConfigurationDoneRequest", bool true)
    ∷ (codes "supportsEvaluateForHovers", bool false)
    ∷ (codes "supportsTerminateRequest", bool true)
    ∷ (codes "supportsCancelRequest", bool false)
    ∷ (codes "supportsBreakpointLocationsRequest", bool false)
    ∷ (codes "supportsFunctionBreakpoints", bool false)
    ∷ (codes "supportsConditionalBreakpoints", bool false)
    ∷ (codes "supportsHitConditionalBreakpoints", bool false)
    ∷ (codes "supportsLogPoints", bool false)
    ∷ (codes "supportsModulesRequest", bool false)
    ∷ (codes "supportsExceptionInfoRequest", bool false)
    ∷ (codes "supportsValueFormattingOptions", bool false)
    ∷ (codes "supportsDelayedStackTraceLoading", bool false)
    ∷ []

unfoldable pub on_initialize : ℕ → DapServer → Handled
on_initialize request_seq s = handled (
    write_event (codes "initialized") none
      (write_response request_seq (codes "initialize") true (some (obj flags)) none s))

unfoldable pub on_threads : ℕ → DapServer → Handled
on_threads request_seq s =
    let threads =
      arr (obj ((codes "id", num 1) ∷ (codes "name", string (codes "request")) ∷ []) ∷ []) in
    handled (
      write_response request_seq (codes "threads") true
        (some (obj ((codes "threads", threads) ∷ []))) none s)

-- The state after a move of the cursor: the handles of variables are forgotten.
abbrev pub moved_to : SessionState → Option ReplayCursor → SessionState
moved_to state cursor = record state { cursor = cursor; var_refs = [] }

unfoldable pub on_step : ℕ → Text → StepKind → DapServer → Handled
on_step request_seq command kind s =
    let reason : Text = elim kind [ back ↦ codes "step (reverse)" | _ ↦ codes "step" ] in
    let cursor = map_some (λ c. (step c kind).0) s.state.cursor in
    handled (
      write_event (codes "stopped") (some (stopped_body reason)) (
        write_response request_seq command true none none (with_state s (moved_to s.state cursor))))

-- The cursor after a continue; `none` when `reverse_continue` would panic.
unfoldable pub continued : Bool → BreakpointSet → Option ReplayCursor → Option (Option ReplayCursor)
continued reverse bps none = some none
continued reverse bps (some c) =
    if reverse
    then map_some (λ moved. some moved.0) (reverse_continue c bps)
    else some (some (forward_continue c bps).0)

-- The replay's part of `on_continue`.
unfoldable pub replay_continue : ℕ → Text → Bool → DapServer → Handled
replay_continue request_seq command reverse s =
    map_some
      (λ cursor. ok (
        write_event (codes "stopped")
          (some (stopped_body (if reverse then codes "reverse continue" else codes "continue")))
          (write_response request_seq command true none none
            (with_state s (moved_to s.state cursor)))))
      (continued reverse s.state.breakpoints s.state.cursor)

-- The live part: the extension is told to go on.
unfoldable pub live_release : ℕ → Text → LinkBus → DapServer → DapServer
live_release request_seq command bus s =
    write_event (codes "continued")
      (some (obj ((codes "threadId", num 1) ∷ (codes "allThreadsContinued", bool true) ∷ [])))
      (write_response request_seq command true none none (record s {
        bus = some (broadcast_to_extensions continue bus);
        state = record s.state { live_paused = false; var_refs = [] };
      }))

unfoldable pub on_continue : ℕ → Text → Bool → DapServer → Handled
on_continue request_seq command reverse s = elim s.bus [
  | none ↦ replay_continue request_seq command reverse s
  | some bus ↦
      if not reverse && s.state.live_paused
      then handled (live_release request_seq command bus s)
      else replay_continue request_seq command reverse s
]

-- `HashSet::insert`
unfoldable pub add_point : List (Text × ℕ) → Text × ℕ → List (Text × ℕ)
add_point points p = if contains points p then points else points ++ p ∷ []

unfoldable pub add_points : Text → List ℕ → List (Text × ℕ) → List (Text × ℕ)
add_points path [] points = points
add_points path (line ∷ lines) points = add_points path lines (add_point points (path, line))

abbrev pub in_other_file : Text → Text × ℕ → Bool
in_other_file path p = not (p.0 == path)

-- The lines of the argument "breakpoints"; `as u32` keeps the low 32 bits.
unfoldable pub lines_of : List Value → List ℕ
lines_of [] = []
lines_of (b ∷ bs) =
    let rest = lines_of bs in
    elim (get_u64 b (codes "line")) [ none ↦ rest | some line ↦ line % u32_mod ∷ rest ]

unfoldable pub set_points : Text → List ℕ → DapServer → DapServer
set_points path lines s = record s {
  state = record s.state {
    breakpoints = record {
      points = add_points path lines (retain (in_other_file path) s.state.breakpoints.points);
    };
  };
  bus = map_some (broadcast_to_extensions (set_breakpoints path lines)) s.bus;
}

unfoldable pub on_set_breakpoints : ℕ → Value → DapServer → Handled
on_set_breakpoints request_seq args s =
    let path =
      unwrap_or (and_then (value_get args (codes "source")) (λ v. get_str v (codes "path"))) [] in
    let lines =
      lines_of (unwrap_or (and_then (value_get args (codes "breakpoints")) as_array) []) in
    let verified =
      arr
        (map (λ line. obj ((codes "verified", bool true) ∷ (codes "line", num line) ∷ [])) lines) in
    handled (
      write_response request_seq (codes "setBreakpoints") true
        (some (obj ((codes "breakpoints", verified) ∷ []))) none (set_points path lines s))

unfoldable pub on_evaluate : ℕ → Value → DapServer → Handled
on_evaluate request_seq args s =
    let expr = unwrap_or (get_str args (codes "expression")) [] in
    let result =
      codes "evaluation of `"
      ++ expr
      ++ codes "` is read-only in v1; expressions land in Phase 8+" in
    handled (
      write_response request_seq (codes "evaluate") true
        (some (obj ((codes "result", string result) ∷ (codes "variablesReference", num 0) ∷ [])))
        none s)

-- The frame of an id, in the trace that is loaded.
abbrev pub loaded_frame : SessionState → ℕ → Option FrameJson
loaded_frame state id = and_then state.cursor (λ c. frame c.index id)

unfoldable pub on_scopes : ℕ → Value → DapServer → Handled
on_scopes request_seq args s =
    let frame_id = unwrap_or (get_u64 args (codes "frameId")) 0 % u32_mod in
    elim (loaded_frame s.state frame_id) [
      | none ↦ handled (
          write_response request_seq (codes "scopes") false none (some (codes "frame not found")) s)
      | some f ↦
          let var_ref = s.state.next_var_ref in
          let scope = obj (
            (codes "name", string (codes "Locals"))
            ∷ (codes "variablesReference", num var_ref)
            ∷ (codes "expensive", bool false)
            ∷ (codes "presentationHint", string (codes "locals"))
            ∷ (codes "source", obj ((codes "path", string f.file) ∷ []))
            ∷ []) in
          handled (
            write_response request_seq (codes "scopes") true
              (some (obj ((codes "scopes", arr (scope ∷ [])) ∷ []))) none
              (with_state s (record s.state {
                next_var_ref = var_ref + 1;
                var_refs = insert (var_ref % u32_mod) frame_id s.state.var_refs;
              })))
    ]

abbrev pub variable : Text → Option Text → List Value
variable name none = []
variable name (some v) =
    obj (
      (codes "name", string name)
      ∷ (codes "value", string v)
      ∷ (codes "type", string (codes "summary"))
      ∷ (codes "variablesReference", num 0)
      ∷ [])
    ∷ []

-- The variables of the frame behind a handle.
unfoldable pub variables_of : SessionState → ℕ → List Value
variables_of state var_ref = elim (and_then (get state.var_refs var_ref) (loaded_frame state)) [
  | none ↦ []
  | some f ↦
      variable (codes "$args") f.args_summary ++ variable (codes "$return") f.return_value_summary
]

unfoldable pub on_variables : ℕ → Value → DapServer → Handled
on_variables request_seq args s =
    let var_ref = unwrap_or (get_u64 args (codes "variablesReference")) 0 % u32_mod in
    handled (
      write_response request_seq (codes "variables") true
        (some (obj ((codes "variables", arr (variables_of s.state var_ref)) ∷ []))) none s)
