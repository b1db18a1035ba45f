-- ===== src/Replay/State.antt =====
-- daemon/src/replay/state.rs: the state at a moment. The loops of the index that it calls take
-- fuel, so it does; `none` is fuel that ran out.
pub mod Laws
use Prim.Native.String.{String}
use php_periscope.Common.{ℕ, Option, none, some, List, [], ◌∷◌, ◌++◌, map_some, and_then, unwrap_or}
use php_periscope.Common.Text.{Text, codes}
use php_periscope.Trace.{FrameJson, EventJson}
use php_periscope.Replay.Index.{TraceIndex, frame, event, frame_at, stack_from, events_before}
use php_periscope.Replay.Cursor.{frames_of}

pub data ScopeKind : Type 0 where
  args return : ScopeKind

pub record ScopeVariable : Type 0 where
  pub name : Text
  pub value : Text
  pub kind : ScopeKind

pub record ReconstructedState : Type 0 where
  pub at_micros : ℕ
  pub current_frame : Option FrameJson
  pub stack : List FrameJson
  pub scope_variables : List ScopeVariable
  pub events_so_far : List EventJson

-- `if let Some(v) = value { out.push(…) }`
unfoldable pub scope_variable : String → ScopeKind → Option Text → List ScopeVariable
scope_variable name kind none = []
scope_variable name kind (some v) = record { name = codes name; value = v; kind = kind } ∷ []

unfoldable pub collect_scope : FrameJson → List ScopeVariable
unfolding scope_variable
collect_scope f =
    scope_variable "$args" args f.args_summary
    ++ scope_variable "$return" return f.return_value_summary

-- `filter_map(|eid| index.event(eid))`
unfoldable pub events_of : TraceIndex → List ℕ → List EventJson
events_of index [] = []
events_of index (id ∷ ids) =
    let rest = events_of index ids in elim (event index id) [ none ↦ rest | some e ↦ e ∷ rest ]

unfoldable pub stack_of : TraceIndex → ℕ → Option ℕ → Option (List FrameJson)
stack_of index fuel none = some []
stack_of index fuel (some id) = map_some (frames_of index) (stack_from index fuel id)

-- The struct that `at_frame_internal` returns, given the stack.
unfoldable pub reconstruct : TraceIndex → Option ℕ → ℕ → List FrameJson → ReconstructedState
reconstruct index frame_id time_micros stack =
    let current = and_then frame_id (frame index) in
    record {
      at_micros = time_micros;
      current_frame = current;
      stack = stack;
      scope_variables = unwrap_or (map_some collect_scope current) [];
      events_so_far = events_of index (events_before index time_micros);
    }

unfoldable pub at_frame_internal : TraceIndex → ℕ → Option ℕ → ℕ → Option ReconstructedState
unfolding reconstruct
at_frame_internal index fuel frame_id time_micros =
    map_some (reconstruct index frame_id time_micros) (stack_of index fuel frame_id)

unfoldable pub at_time : TraceIndex → ℕ → ℕ → Option ReconstructedState
at_time index fuel time_micros =
    and_then (frame_at index fuel time_micros)
      (λ current. at_frame_internal index fuel current time_micros)

unfoldable pub at_frame : TraceIndex → ℕ → ℕ → Option ReconstructedState
at_frame index fuel frame_id =
    at_frame_internal index fuel (some frame_id)
      (unwrap_or (map_some (λ f. f.enter_micros) (frame index frame_id)) 0)
