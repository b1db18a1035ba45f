-- ===== src/Replay/Tests.antt =====
-- The call tree of the source's own tests, and each theorem of `Replay` at it:
--   {main}(1) calls a(2), which calls b(3), and then c(4).
use php_periscope.Common.{
  ℕ, ◌-◌, ◌≤◌, Option, none, some, List, [], ◌∷◌, ◌++◌, ◌≡◌, ◌↔◌, refl, arith, count, length, map,
  inl, and_then, nat_beq, leb, count_where, ◌&&◌, get_elem?,
}
use php_periscope.Common.Sort.{sort_by, place, IsSorted, by_key}
use php_periscope.Common.Maps.{get, insert, entry}
use php_periscope.Common.Text.{codes}
use php_periscope.Json.{null}
use php_periscope.Trace.{TraceJson, FrameJson, EventJson, MetaJson}
use php_periscope.Replay.Index.{
  TraceIndex, build, assemble, traverse, index_children, index_roots, enter_of, key_at, positions,
  link_frame, link_frames, sort_children, kids_of, frame, children_of, frame_at, descend,
  find_window, in_window, events_before, stack_from,
}
use php_periscope.Replay.Index.Positions.{HasDistinct}
use php_periscope.Replay.Index.Links.{child_ids}
use php_periscope.Replay.Index.Forest.{Rooted, root, child}
use php_periscope.Replay.Index.Build.{build_preorder, build_diverges}
use php_periscope.Replay.Index.Lookup.{frame_iff, children_of_call_order}
use php_periscope.Replay.Index.Windows.{Landing}
use php_periscope.Replay.Index.Depths.{Deepest, frame_at_lem}
use php_periscope.Replay.Index.Stack.{chain, stack_from-chain, stack_from_diverges}
use php_periscope.Replay.Index.Events.{events_before_exact}
use php_periscope.Replay.Cursor.{
  ReplayCursor, BreakpointSet, step, out, current_frame_id, forward_continue, reverse_continue,
  seek_time, seek_frame,
}
use php_periscope.Replay.Cursor.Continue.{
  RunsForward, RunsBack, forward_continue_lem, reverse_continue_lem,
}
use php_periscope.Replay.Cursor.Bounds.{Lands, step-IsOn}
use php_periscope.Replay.Cursor.Seek.{Sought, seek_time_lem, seek_frame_lem}
use php_periscope.Replay.Cursor.Over.{HasDepths, Skips, step_over_subtree}
use php_periscope.Replay.Index.Walk.{Walk}
use php_periscope.Replay.State.{ReconstructedState, at_time}
use php_periscope.Replay.State.Laws.{Shown, at_time_lem}

abbrev call : ℕ → ℕ → ℕ → ℕ → ℕ → FrameJson
call id parent enter exit depth = record {
  id = id;
  parent_id = parent;
  function = codes "f";
  file = codes "x.php";
  line = id;
  enter_micros = enter;
  exit_micros = exit;
  duration_micros = exit - enter;
  depth = depth;
  flags = 0;
  args_summary = none;
  return_value_summary = none;
  observability_event_ids = [];
}

abbrev log : ℕ → ℕ → ℕ → EventJson
log id in_frame at_time = record {
  id = id;
  at_micros = at_time;
  in_frame_id = in_frame;
  type_tag = codes "log";
  payload = null;
  user_call_site = none;
}

abbrev blank_meta : MetaJson
blank_meta = record {
  php_version = codes "8.3";
  periscope_version = codes "0";
  sapi = codes "cli";
  entry_point = [];
  working_dir = [];
  hostname = [];
  pid = 0;
  started_at_unix_micros = 0;
  duration_micros = 100;
  request = none;
  response = none;
}

abbrev trace_of : List FrameJson → TraceJson
trace_of fs = record {
  id = codes "t";
  meta = blank_meta;
  frames = fs;
  observability_events = log 1 1 10 ∷ log 3 2 70 ∷ log 2 1 30 ∷ [];
}

abbrev sample : TraceJson
sample = trace_of (call 1 0 0 100 1 ∷ call 4 1 70 90 2 ∷ call 2 1 5 60 2 ∷ call 3 2 10 50 3 ∷ [])

abbrev sample_index : TraceIndex
sample_index = assemble sample (1 ∷ 2 ∷ 3 ∷ 4 ∷ [])

sample_distinct : HasDistinct (λ f. f.id) sample.frames
sample_distinct a = ground arith

sample-build : build 4 sample ≡ some sample_index
unfolding build assemble traverse index_children index_roots enter_of key_at positions link_frame
    link_frames sort_children kids_of sort_by place get insert entry
sample-build = refl

build_preorder_example :
    (index : TraceIndex) × (build 4 sample ≡ some index)
    × ((x : ℕ) → (1 ≤ count x index.preorder) ↔ Rooted sample.frames x)
    × ((x : ℕ) → count x index.preorder ≤ 1)
build_preorder_example = build_preorder 4 sample sample_distinct (omega arith)

-- Two frames of one id, one of them its own parent.
build_diverges_example : build 1000 (trace_of (call 1 0 0 100 1 ∷ call 1 1 5 60 2 ∷ [])) ≡ none
build_diverges_example =
    build_diverges 1000 (trace_of (call 1 0 0 100 1 ∷ call 1 1 5 60 2 ∷ [])) 1 (omega arith)
      (omega arith) (omega arith)

frame_iff_example : (frame sample_index 4 ≡ some (call 4 1 70 90 2)) ↔ (
    (j : ℕ) × (get_elem? sample.frames j ≡ some (call 4 1 70 90 2)) × ((call 4 1 70 90 2).id ≡ 4))
frame_iff_example = frame_iff 4 sample sample-build sample_distinct 4 (call 4 1 70 90 2)

children_of_call_order_example :
    IsSorted (by_key (enter_of sample)) (children_of sample_index 1)
    × ((x : ℕ) → count x (children_of sample_index 1) ≡ count x (child_ids 1 sample.frames))
children_of_call_order_example = children_of_call_order 4 sample sample-build 1 (omega arith)

frame_at_lem_example :
    (r : Option ℕ) × (frame_at sample_index 5 25 ≡ some r)
    × Landing sample_index 25 r
    × Deepest sample_index 25 r
frame_at_lem_example =
    frame_at_lem 4 sample sample_index 25 5 sample-build (unfold assemble in omega arith)

-- Where the windows of siblings overlap, the first of them wins: 2 and 3 are children of 1, and 4,
-- which is deeper than 2, is a child of 3; all are open at 5.
abbrev overlap : TraceJson
overlap = trace_of (call 1 0 0 100 1 ∷ call 2 1 5 5 2 ∷ call 3 1 5 20 2 ∷ call 4 3 5 8 3 ∷ [])

overlap-frame_at : and_then (build 9 overlap) (λ index. frame_at index 9 5) ≡ some (some 2)
unfolding build assemble traverse index_children index_roots enter_of key_at positions link_frame
    link_frames sort_children kids_of sort_by place get insert entry frame_at descend find_window
    frame children_of in_window
overlap-frame_at = refl

main_is_rooted : Rooted sample.frames 1
main_is_rooted = root 1 (omega arith)

b_is_rooted : Rooted sample.frames 3
b_is_rooted =
    child 2 3 (child 1 2 main_is_rooted (omega arith) (omega arith)) (omega arith) (omega arith)

stack_from-chain_example : stack_from sample_index 3 3 ≡ some (chain b_is_rooted)
stack_from-chain_example =
    stack_from-chain 4 sample sample_index sample-build sample_distinct refl b_is_rooted 3
      (unfold b_is_rooted main_is_rooted in omega arith)

events_before_exact_example :
    count 2 (events_before sample_index 50)
    ≡ count_where (λ e. nat_beq 2 e.id && leb e.at_micros 50) sample.observability_events
events_before_exact_example =
    events_before_exact 4 sample sample_index sample-build (λ a. ground arith) 50 2

abbrev at_b : ReplayCursor
at_b = record { index = sample_index; pos = 2 }

abbrev on_line : ℕ → BreakpointSet
on_line n = record { points = (codes "x.php", n) ∷ [] }

step-IsOn_example : Lands at_b (step at_b out)
step-IsOn_example = step-IsOn 4 sample at_b sample-build out (inl (unfold assemble in omega arith))

seek_frame_lem_example :
    ((seek_frame at_b 4).1 ≡ some 4)
    × (current_frame_id (seek_frame at_b 4).0 ≡ some 4)
    × ((seek_frame at_b 4).0.index ≡ sample_index)
seek_frame_lem_example =
    seek_frame_lem 4 sample at_b sample-build 4 (unfold assemble in omega arith)

seek_time_lem_example :
    (found : Option ℕ) × (c' : ReplayCursor) × ((seek_time 5 at_b 25 ≡ some (c', found))
      × (c'.index ≡ sample_index)
      × Landing sample_index 25 found
      × Sought at_b (c', found))
seek_time_lem_example =
    seek_time_lem 4 sample at_b sample-build 5 25 (unfold assemble in omega arith)

sample_depths : HasDepths 1 sample.frames
sample_depths = omega arith

abbrev at_a : ReplayCursor
at_a = record { index = sample_index; pos = 1 }

at_time_lem_example :
    (enough : ℕ) × (found : Option ℕ) × (s : ReconstructedState) × (((rounds : ℕ)
        → enough ≤ rounds
        → at_time sample_index rounds 30 ≡ some s)
      × Landing sample_index 30 found
      × (s.at_micros ≡ 30)
      × Shown sample sample_index found s
      × (map (λ e. e.id) s.events_so_far ≡ events_before sample_index 30))
at_time_lem_example = at_time_lem 4 sample sample_index sample-build sample_distinct refl 30

forward_continue_lem_example : RunsForward at_a (on_line 4) (forward_continue at_a (on_line 4))
forward_continue_lem_example =
    forward_continue_lem at_a (on_line 4) (unfold assemble in omega arith)

reverse_continue_lem_example :
    (r : ReplayCursor × Option ℕ) × (reverse_continue at_b (on_line 1) ≡ some r)
    × RunsBack at_b (on_line 1) r
reverse_continue_lem_example =
    reverse_continue_lem at_b (on_line 1) (unfold assemble in omega arith)

step_over_subtree_example :
    (before sub after : List ℕ) × ((sample_index.preorder ≡ before ++ 2 ∷ (sub ++ after))
      × (length before ≡ 1)
      × Walk (index_children sample) (kids_of (index_children sample) 2) sub
      × Skips at_a sub after)
step_over_subtree_example =
    step_over_subtree 4 sample at_a sample-build 1 sample_distinct sample_depths 2
      (unfold current_frame_id assemble in refl)

-- A frame that is its own parent, and that no root leads to.
abbrev looped : TraceIndex
looped = assemble (trace_of (call 1 1 0 100 1 ∷ [])) []

stack_from_diverges_example : stack_from looped 1000 1 ≡ none
stack_from_diverges_example =
    stack_from_diverges looped 1 (call 1 1 0 100 1) 1000 (omega arith)
      (unfold frame assemble positions get insert in refl) refl
