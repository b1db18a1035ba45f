-- ===== src/Replay/Cursor/Bounds.antt =====
-- No operation of the cursor takes it off the preorder.
use php_periscope.Common.{
  ℕ, ◌<◌, Option, none, some, ◌≡◌, refl, arith, sym, ◌∙◌, ap, length, get_elem?, Option-cases, inl,
  inr, lt-length_of_get_elem?, count_of_get_elem?, ◌⊎◌,
}
use php_periscope.Trace.{FrameJson, TraceJson}
use php_periscope.Replay.Index.{TraceIndex, frame, build, preorder_pos_of}
use php_periscope.Replay.Index.Positions.{positions_held}
use php_periscope.Replay.Index.Lookup.{preorder_pos_lem, frame_of_preorder}
use php_periscope.Replay.Cursor.{
  ReplayCursor, StepKind, into, over, out, back, step, step_in, step_over, step_out, step_back,
  park_on_parent, current_frame_id, current_frame,
}

-- The cursor is on a position of the preorder, or at the start of an empty one.
abbrev pub IsOn : ReplayCursor → Type 0
IsOn c = (c.pos < length c.index.preorder) ⊎ (c.pos ≡ 0)

-- The cursor walks an index that `build` made.
abbrev pub Walks : ℕ → TraceJson → ReplayCursor → Type 0
Walks fuel t c = build fuel t ≡ some c.index

-- A position that the index gives for an id is one of the preorder, and the id stands there.
pub preorder_pos_sound :
    (fuel : ℕ) (t : TraceJson) (index : TraceIndex) (k p : ℕ)
    → build fuel t ≡ some index
    → preorder_pos_of index k ≡ some p
    → get_elem? index.preorder p ≡ some k
preorder_pos_sound fuel t index k p h found =
    let (x, at_p, same) =
      positions_held (λ (id : ℕ). id) k p index.preorder
        (sym (preorder_pos_lem fuel t h k) ∙ found) in
    at_p ∙ ap some same

-- The result of an operation: on the preorder of the same index, with the id that it reports.
abbrev pub Lands : ReplayCursor → ReplayCursor × Option ℕ → Type 0
Lands c r = IsOn r.0 × (r.0.index ≡ c.index) × (r.1 ≡ current_frame_id r.0)

module _ (fuel : ℕ) (t : TraceJson) (c : ReplayCursor) (w : Walks fuel t c) where
  -- A frame that the preorder names is known.
  pub current_frame-cases :
      ((current_frame_id c ≡ none) × (current_frame c ≡ none))
      ⊎ ((id : ℕ) × (f : FrameJson) × (current_frame_id c ≡ some id)
          × (frame c.index id ≡ some f)
          × (current_frame c ≡ some f))
  unfolding current_frame current_frame_id
  current_frame-cases = elim (Option-cases (current_frame_id c)) [
    | inl off ↦ inl (off, rw off)
    | inr (id, at_pos) ↦
        let (f, known) =
          frame_of_preorder fuel t w id (count_of_get_elem? c.index.preorder c.pos at_pos) in
        inr (id, f, at_pos, known, rw at_pos known)
  ]

  parked-Lands : (id : ℕ) → IsOn c → Lands c (park_on_parent c id)
  unfolding park_on_parent
  parked-Lands id on = elim (Option-cases (preorder_pos_of c.index id)) [
    | inl missing ↦ rw (missing, park_on_parent) (on, refl, refl)
    | inr (p, found) ↦
        let at_p = preorder_pos_sound fuel t c.index id p w found in
        rw (found, park_on_parent)
          (inl (lt-length_of_get_elem? c.index.preorder p at_p), refl, refl)
  ]

  over-Lands : IsOn c → Lands c (step_over c)
  unfolding step_over
  over-Lands on = elim current_frame-cases [
    | inl (off, lost) ↦ rw (lost, step_over) (on, refl, sym off)
    | inr (id, f, at_pos, known, cur) ↦ ground arith
  ]

  out-Lands : IsOn c → Lands c (step_out c)
  unfolding step_out
  out-Lands on = elim current_frame-cases [
    | inl (off, lost) ↦ rw (lost, step_out) (on, refl, refl)
    | inr (id, f, at_pos, known, cur) ↦ ground (arith, parked-Lands f.parent_id on)
  ]

  -- From an index that `build` made, every step keeps the cursor on a position of the preorder
  -- (or at the start of an empty one) and on the same index, and returns the id of the frame
  -- that the cursor is on afterwards.
  pub step-IsOn : (kind : StepKind) → IsOn c → Lands c (step c kind)
  unfolding step step_in step_back
  step-IsOn into on = ground arith
  step-IsOn over on = over-Lands on
  step-IsOn out on = out-Lands on
  step-IsOn back on = ground arith
