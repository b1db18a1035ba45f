-- ===== src/Replay/Index.antt =====
-- daemon/src/replay/index.rs: `TraceIndex`. A `HashMap` is an association list. The traversal
-- takes fuel, `none` when it runs out; `frame_at` and `stack_from` take fuel too. Indexing a
-- `Vec` out of range would panic; `get_elem?` returns `none` there.
pub mod Positions
pub mod Links
pub mod Traverse
pub mod Forest
pub mod Build
pub mod Walk
pub mod Lookup
pub mod Depths
pub mod Windows
pub mod Stack
pub mod Events
use php_periscope.Common.{
  and_then, map_some, unwrap_or, ℕ, zero, suc, ◌+◌, ◌%◌, ◌^◌, max, Option, none, some, List, [],
  ◌∷◌, ◌++◌, map, reverse, Bool, true, false, not, ◌&&◌, if◌then◌else◌, ltb, leb, nat_beq, nat_eq,
  length, get_elem?, take, ◌==◌,
}
use php_periscope.Common.Maps.{Map, get, insert, entry}
use php_periscope.Common.Sort.{sort_by_key}
use php_periscope.Trace.{TraceJson, FrameJson, EventJson}

pub record TraceIndex : Type 0 where
  pub trace : TraceJson
  pub frame_pos : Map ℕ ℕ
  pub children : Map ℕ (List ℕ)
  pub preorder : List ℕ
  pub preorder_pos : Map ℕ ℕ
  pub events_by_time : List ℕ
  pub event_pos : Map ℕ ℕ
  pub roots : List ℕ

-- `for (i, x) in xs.iter().enumerate() { m.insert(key(x), i); }`
unfoldable pub positions {ℓ} : {A : Type ℓ} → (A → ℕ) → ℕ → List A → Map ℕ ℕ → Map ℕ ℕ
positions key i [] m = m
positions key i (x ∷ xs) m = positions key (suc i) xs (insert (key x) i m)

-- The loop that files each frame under its parent, or among the roots.
unfoldable pub link_frame : FrameJson → Map ℕ (List ℕ) × List ℕ → Map ℕ (List ℕ) × List ℕ
link_frame f acc =
    if f.parent_id == 0
    then (acc.0, acc.1 ++ f.id ∷ [])
    else (entry f.parent_id [] (λ kids. kids ++ f.id ∷ []) acc.0, acc.1)

unfoldable pub link_frames : List FrameJson → Map ℕ (List ℕ) × List ℕ → Map ℕ (List ℕ) × List ℕ
link_frames [] acc = acc
link_frames (f ∷ fs) acc = link_frames fs (link_frame f acc)

-- `map.get(id).map(|p| xs[*p].key()).unwrap_or(0)`
unfoldable pub key_at {ℓ} : {A : Type ℓ} → (A → ℕ) → List A → Map ℕ ℕ → ℕ → ℕ
key_at key xs m id = unwrap_or (map_some key (and_then (get m id) (get_elem? xs))) 0

-- `children.get(&id)`, a missing entry read as no children.
unfoldable pub kids_of : Map ℕ (List ℕ) → ℕ → List ℕ
kids_of children id = unwrap_or (get children id) []

-- `while let Some(id) = stack.pop()`: the stack with its top first, and the preorder so far.
-- `for k in kids.iter().rev() { stack.push(*k); }` leaves `kids` in their order on the top.
unfoldable pub traverse : Map ℕ (List ℕ) → ℕ → List ℕ → List ℕ → Option (List ℕ)
traverse children fuel [] preorder = some preorder
traverse children zero (id ∷ stack) preorder = none
traverse children (suc fuel) (id ∷ stack) preorder =
    traverse children fuel (kids_of children id ++ stack) (preorder ++ id ∷ [])

unfoldable pub sort_children : (ℕ → ℕ) → Map ℕ (List ℕ) → Map ℕ (List ℕ)
sort_children key = map (λ (p, kids). (p, sort_by_key key kids))

-- The time at which the frame of an id is entered, as the sorts of `build` read it.
unfoldable pub enter_of : TraceJson → ℕ → ℕ
enter_of trace = key_at (λ f. f.enter_micros) trace.frames (positions (λ f. f.id) 0 trace.frames [])

unfoldable pub index_children : TraceJson → Map ℕ (List ℕ)
index_children trace = sort_children (enter_of trace) (link_frames trace.frames ([], [])).0

unfoldable pub index_roots : TraceJson → List ℕ
index_roots trace = sort_by_key (enter_of trace) (link_frames trace.frames ([], [])).1

-- The struct that `build` returns, given the preorder.
unfoldable pub assemble : TraceJson → List ℕ → TraceIndex
assemble trace preorder =
    let events = trace.observability_events in
    let event_pos = positions (λ e. e.id) 0 events [] in
    record {
      trace = trace;
      frame_pos = positions (λ f. f.id) 0 trace.frames [];
      children = index_children trace;
      preorder = preorder;
      preorder_pos = positions (λ id. id) 0 preorder [];
      events_by_time =
          sort_by_key (key_at (λ e. e.at_micros) events event_pos) (map (λ e. e.id) events);
      event_pos = event_pos;
      roots = index_roots trace;
    }

-- `TraceIndex::build`, on fuel for the traversal: a `while` loop that need not end.
unfoldable pub build : ℕ → TraceJson → Option TraceIndex
unfolding assemble
build fuel trace =
    map_some (assemble trace) (traverse (index_children trace) fuel (index_roots trace) [])

-- `TraceIndex::frame`
unfoldable pub frame : TraceIndex → ℕ → Option FrameJson
frame index id = and_then (get index.frame_pos id) (get_elem? index.trace.frames)

-- `TraceIndex::event`
unfoldable pub event : TraceIndex → ℕ → Option EventJson
event index id = and_then (get index.event_pos id) (get_elem? index.trace.observability_events)

-- `TraceIndex::children_of`
unfoldable pub children_of : TraceIndex → ℕ → List ℕ
unfolding kids_of
children_of index id = kids_of index.children id

-- `TraceIndex::preorder_pos_of`
unfoldable pub preorder_pos_of : TraceIndex → ℕ → Option ℕ
preorder_pos_of index id = get index.preorder_pos id

abbrev pub u64_mod : ℕ
u64_mod = 2 ^ 64

-- The test of `frame_at`: the frame's window, at least one microsecond long, holds `time`.
unfoldable pub in_window : ℕ → FrameJson → Bool
in_window time f =
    leb f.enter_micros time && ltb time (max f.exit_micros ((f.enter_micros + 1) % u64_mod))

-- The `for` loop of `frame_at`.
unfoldable pub find_window : TraceIndex → ℕ → List ℕ → Option ℕ
find_window index time [] = none
find_window index time (id ∷ candidates) =
    let rest = find_window index time candidates in
    elim (frame index id) [ none ↦ rest | some f ↦ if in_window time f then some id else rest ]

-- The `loop` of `frame_at`, with `current` the last frame found; `none` when the fuel runs out.
unfoldable pub descend : TraceIndex → ℕ → ℕ → Option ℕ → List ℕ → Option (Option ℕ)
descend index time zero current candidates = none
descend index time (suc fuel) current candidates = elim (find_window index time candidates) [
  | none ↦ some current
  | some id ↦
      let deeper = descend index time fuel (some id) (children_of index id) in
      elim (children_of index id) [ [] ↦ some (some id) | _ ∷ _ ↦ deeper ]
]

-- `TraceIndex::frame_at`
unfoldable pub frame_at : TraceIndex → ℕ → ℕ → Option (Option ℕ)
frame_at index fuel time = descend index time fuel none index.roots

-- `TraceIndex::stack_from`: the parent chain, leaf first.
unfoldable pub stack_from : TraceIndex → ℕ → ℕ → Option (List ℕ)
stack_from index zero next = if next == 0 then some [] else none
stack_from index (suc fuel) next =
    let rest = λ (parent : ℕ). stack_from index fuel parent in
    if next == 0 then some [] else elim (frame index next) [
      | none ↦ some []
      | some f ↦ map_some (λ out. next ∷ out) (rest f.parent_id)
    ]

-- `slice::partition_point` on a slice that `p` splits: the length of the prefix that passes.
unfoldable pub partition_point : (ℕ → Bool) → List ℕ → ℕ
partition_point p [] = 0
partition_point p (x ∷ xs) = let n = suc (partition_point p xs) in if p x then n else 0

-- `TraceIndex::events_before`
unfoldable pub events_before : TraceIndex → ℕ → List ℕ
events_before index time =
    let cutoff =
      partition_point
        (λ id. unwrap_or (map_some (λ e. leb e.at_micros time) (event index id)) false)
        index.events_by_time in
    take cutoff index.events_by_time
