-- ===== src/Replay/Cursor.antt =====
-- daemon/src/replay/cursor.rs: `ReplayCursor` and `BreakpointSet`. A method returns the cursor
-- beside its result. A loop over `next` walks the suffix of the preorder that is left; the read
-- of a position by `reverse_continue` panics out of range, which is `none`.
pub mod Scan
pub mod Continue
pub mod Bounds
pub mod Seek
pub mod Subtree
pub mod Over
use php_periscope.Common.{
  ℕ, zero, suc, ◌+◌, ◌-◌, Option, none, some, List, [], ◌∷◌, Bool, true, false, ◌&&◌, ◌||◌,
  if◌then◌else◌, ltb, leb, nat_beq, nat_eq, length, get_elem?, drop, ◌==◌, pair_eq, and_then,
  map_some, unwrap_or,
}
use php_periscope.Common.Text.{Text}
use php_periscope.Trace.{FrameJson}
use php_periscope.Replay.Index.{TraceIndex, frame, frame_at, stack_from, preorder_pos_of}

pub data StepKind : Type 0 where
  into over out back : StepKind

-- `HashSet::contains`
unfoldable pub contains : List (Text × ℕ) → Text × ℕ → Bool
contains [] p = false
contains (q ∷ points) p = q == p || contains points p

pub record BreakpointSet : Type 0 where
  pub points : List (Text × ℕ)

-- `BreakpointSet::matches`
unfoldable pub matches : BreakpointSet → FrameJson → Bool
matches bps f = elim bps.points [ [] ↦ false | _ ∷ _ ↦ contains bps.points (f.file, f.line) ]

pub record ReplayCursor : Type 0 where
  pub index : TraceIndex
  pub pos : ℕ

-- `ReplayCursor::new`
unfoldable pub new : TraceIndex → ReplayCursor
new index = record { index = index; pos = 0 }

unfoldable pub current_frame_id : ReplayCursor → Option ℕ
current_frame_id c = get_elem? c.index.preorder c.pos

unfoldable pub current_frame : ReplayCursor → Option FrameJson
current_frame c = and_then (current_frame_id c) (frame c.index)

unfoldable pub time : ReplayCursor → ℕ
time c = unwrap_or (map_some (λ f. f.enter_micros) (current_frame c)) 0

-- `filter_map(|fid| index.frame(fid))`
unfoldable pub frames_of : TraceIndex → List ℕ → List FrameJson
frames_of index [] = []
frames_of index (id ∷ ids) =
    let rest = frames_of index ids in elim (frame index id) [ none ↦ rest | some f ↦ f ∷ rest ]

-- `ReplayCursor::stack`, on fuel for `stack_from`.
unfoldable pub stack : ℕ → ReplayCursor → Option (List FrameJson)
stack fuel c = elim (current_frame_id c) [
  | none ↦ some []
  | some id ↦ map_some (frames_of c.index) (stack_from c.index fuel id)
]

abbrev pub moved : ReplayCursor → ℕ → ReplayCursor
moved c pos = record c { pos = pos }

-- A cursor beside the frame that it is on.
abbrev pub here : ReplayCursor → ReplayCursor × Option ℕ
here c = (c, current_frame_id c)

-- `while next < preorder.len()`: the first position at which a known frame passes the test, or
-- the end; the list is the preorder from `next` on.
unfoldable pub advance : TraceIndex → (FrameJson → Bool) → ℕ → List ℕ → ℕ
advance index stop next [] = next
advance index stop next (id ∷ rest) =
    let later = advance index stop (suc next) rest in
    elim (frame index id) [ none ↦ later | some f ↦ if stop f then next else later ]

abbrev pub scan : ReplayCursor → (FrameJson → Bool) → ℕ
scan c stop = advance c.index stop (c.pos + 1) (drop (c.pos + 1) c.index.preorder)

unfoldable pub step_in : ReplayCursor → ReplayCursor × Option ℕ
step_in c = here (if ltb (c.pos + 1) (length c.index.preorder) then moved c (c.pos + 1) else c)

unfoldable pub step_over : ReplayCursor → ReplayCursor × Option ℕ
step_over c = elim (current_frame c) [
  | none ↦ (c, none)
  | some cur ↦
      let next = scan c (λ f. leb f.depth cur.depth) in
      here (if ltb next (length c.index.preorder) then moved c next else c)
]

-- The fall back on the parent, when no later frame is less deep.
unfoldable pub park_on_parent : ReplayCursor → ℕ → ReplayCursor × Option ℕ
park_on_parent c parent_id = elim (preorder_pos_of c.index parent_id) [
  | none ↦ here c
  | some parent_pos ↦ here (moved c parent_pos)
]

unfoldable pub step_out : ReplayCursor → ReplayCursor × Option ℕ
step_out c = elim (current_frame c) [
  | none ↦ here c
  | some cur ↦
      if cur.parent_id == 0
      then here c
      else let next = scan c (λ f. ltb f.depth cur.depth) in
        if ltb next (length c.index.preorder)
        then here (moved c next)
        else park_on_parent c cur.parent_id
]

unfoldable pub step_back : ReplayCursor → ReplayCursor × Option ℕ
step_back c = here (if ltb 0 c.pos then moved c (c.pos - 1) else c)

-- `ReplayCursor::step`; `into` is `StepKind::In`.
unfoldable pub step : ReplayCursor → StepKind → ReplayCursor × Option ℕ
step c into = step_in c
step c over = step_over c
step c out = step_out c
step c back = step_back c

unfoldable pub forward_continue : ReplayCursor → BreakpointSet → ReplayCursor × Option ℕ
forward_continue c breakpoints =
    let next = scan c (matches breakpoints) in
    let n = length c.index.preorder in
    if ltb next n
    then (moved c next, get_elem? c.index.preorder next)
    else here (if ltb 0 n then moved c (n - 1) else c)

-- The `loop` of `reverse_continue`, down from `next`: `some none` when no frame matches.
unfoldable pub retreat : TraceIndex → BreakpointSet → ℕ → Option (Option ℕ)
retreat index breakpoints zero = elim (get_elem? index.preorder 0) [
  | none ↦ none
  | some id ↦ elim (frame index id) [
    | none ↦ some none
    | some f ↦ if matches breakpoints f then some (some 0) else some none
  ]
]
retreat index breakpoints (suc next) =
    let rest = retreat index breakpoints next in
    elim (get_elem? index.preorder (suc next)) [
      | none ↦ none
      | some id ↦ elim (frame index id) [
        | none ↦ rest
        | some f ↦ if matches breakpoints f then some (some (suc next)) else rest
      ]
    ]

unfoldable pub reverse_continue : ReplayCursor → BreakpointSet → Option (ReplayCursor × Option ℕ)
reverse_continue c breakpoints =
    if c.pos == 0
    then some (here c)
    else map_some
        (λ hit. elim hit [
          | none ↦ here (moved c 0)
          | some next ↦ (moved c next, get_elem? c.index.preorder next)
        ])
        (retreat c.index breakpoints (c.pos - 1))

-- `seek_time`, on fuel for `frame_at`.
unfoldable pub seek_time : ℕ → ReplayCursor → ℕ → Option (ReplayCursor × Option ℕ)
seek_time fuel c at_time =
    map_some
      (λ found. elim found [
        | none ↦ (c, none)
        | some id ↦ elim (preorder_pos_of c.index id) [
          | none ↦ (c, some id)
          | some p ↦ (moved c p, some id)
        ]
      ])
      (frame_at c.index fuel at_time)

unfoldable pub seek_frame : ReplayCursor → ℕ → ReplayCursor × Option ℕ
seek_frame c id = elim (preorder_pos_of c.index id) [ none ↦ (c, none) | some p ↦ here (moved c p) ]
