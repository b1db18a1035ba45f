-- ===== src/Replay/Cursor/Continue.antt =====
-- `forward_continue` and `reverse_continue` stop at the nearest breakpoint, or at the end.
use php_periscope.Common.{
  ℕ, zero, suc, ◌-◌, ◌≤◌, ◌<◌, Option, none, some, true, false, ◌≡◌, refl, arith, sym, ◌∙◌, ap, ltb,
  nat_beq, length, get_elem?, Bool-cases, Option-cases, inl, inr, get_elem?_of_lt, ◌⊎◌, subst,
}
use php_periscope.Trace.{FrameJson}
use php_periscope.Replay.Index.{TraceIndex, frame}
use php_periscope.Replay.Cursor.{
  ReplayCursor, BreakpointSet, scan, matches, forward_continue, reverse_continue, retreat,
  current_frame_id, moved, here,
}
use php_periscope.Replay.Cursor.Scan.{Stops, Passes, scan_lem}

-- The cursor only moved, and the result is the id of the frame that it is on.
abbrev pub Moves : ReplayCursor → ReplayCursor × Option ℕ → Type 0
Moves c r = (r.0.index ≡ c.index) × (r.1 ≡ current_frame_id r.0)

-- The nearest later frame that a breakpoint matches or, when there is none, the last frame.
abbrev pub RunsForward : ReplayCursor → BreakpointSet → ReplayCursor × Option ℕ → Type 0
RunsForward c bps r =
    (((c.pos < r.0.pos)
        × Stops c.index (matches bps) r.0.pos
        × ((i : ℕ) → c.pos < i → i < r.0.pos → Passes c.index (matches bps) i))
      ⊎ ((r.0.pos ≡ length c.index.preorder - 1)
          × ((i : ℕ) → c.pos < i → Passes c.index (matches bps) i)))
    × Moves c r

-- The nearest earlier frame that a breakpoint matches or, when there is none, the first frame.
abbrev pub RunsBack : ReplayCursor → BreakpointSet → ReplayCursor × Option ℕ → Type 0
RunsBack c bps r =
    (((r.0.pos < c.pos)
        × Stops c.index (matches bps) r.0.pos
        × ((i : ℕ) → r.0.pos < i → i < c.pos → Passes c.index (matches bps) i))
      ⊎ ((r.0.pos ≡ 0) × ((i : ℕ) → i < c.pos → Passes c.index (matches bps) i)))
    × Moves c r

-- From a position of the preorder, `forward_continue` moves to the first later frame that a
-- breakpoint matches or, when none does, to the last frame of the preorder.
pub forward_continue_lem :
    (c : ReplayCursor) (bps : BreakpointSet)
    → c.pos < length c.index.preorder
    → RunsForward c bps (forward_continue c bps)
unfolding forward_continue current_frame_id
forward_continue_lem c bps valid =
    let (later, hit, skipped, missed) = scan_lem c (matches bps) in
    elim (Bool-cases (ltb (scan c (matches bps)) (length c.index.preorder))) [
      | inl found ↦ rw found (inl (later, hit (ground arith), skipped), (refl, refl))
      | inr lost ↦
          let some_frame : ltb 0 (length c.index.preorder) ≡ true = ground arith in
          rw lost (rw some_frame (inr (refl, missed (ground arith)), (refl, refl)))
    ]

module _ (index : TraceIndex) (bps : BreakpointSet) where
  abbrev Nearest : ℕ → Option ℕ → Type 0
  Nearest next none = (i : ℕ) → i ≤ next → Passes index (matches bps) i
  Nearest next (some n) =
      (n ≤ next)
      × Stops index (matches bps) n
      × ((i : ℕ) → n < i → i ≤ next → Passes index (matches bps) i)

  Passes-of_unknown :
      (i id : ℕ)
      → get_elem? index.preorder i ≡ some id
      → frame index id ≡ none
      → Passes index (matches bps) i
  Passes-of_unknown i id at_i unknown id' f at_i' known = absurd (ground arith)

  Passes-of_miss :
      (i id : ℕ) (f : FrameJson)
      → get_elem? index.preorder i ≡ some id
      → frame index id ≡ some f
      → matches bps f ≡ false
      → Passes index (matches bps) i
  Passes-of_miss i id f at_i known miss id' f' at_i' known' =
      let same : some id ≡ some id' = sym at_i ∙ at_i' in
      let e : id ≡ id' = ground arith in
      let frames : some f ≡ some f' = sym known ∙ ap (frame index) e ∙ known' in
      let e' : f ≡ f' = cc in sym (ap (matches bps) e') ∙ miss

  extend :
      (next : ℕ) (o : Option ℕ)
      → Passes index (matches bps) (suc next)
      → Nearest next o
      → Nearest (suc next) o
  extend next none pass h = λ i le. elim (Bool-cases (nat_beq i (suc next))) [
    | inl top ↦ subst (Passes index (matches bps)) (ground arith) pass
    | inr lower ↦ h i (ground arith)
  ]
  extend next (some n) pass (le, stops, h) = (
    omega arith,
    stops,
    λ i lt le'. elim (Bool-cases (nat_beq i (suc next))) [
      | inl top ↦ subst (Passes index (matches bps)) (ground arith) pass
      | inr lower ↦ h i lt (ground arith)
    ],
  )

  at_zero : Passes index (matches bps) 0 → Nearest 0 none
  at_zero pass i le = subst (Passes index (matches bps)) (omega arith) pass

  retreat_lem :
      (next : ℕ)
      → next < length index.preorder
      → (o : Option ℕ) × (retreat index bps next ≡ some o) × Nearest next o
  unfolding retreat
  retreat_lem zero lt =
      let (id, at_i) = get_elem?_of_lt index.preorder 0 lt in
      elim (Option-cases (frame index id)) [
        | inl unknown ↦ (none, ground arith, at_zero (Passes-of_unknown 0 id at_i unknown))
        | inr (f, known) ↦ elim (Bool-cases (matches bps f)) [
          | inl hit ↦ (
            some 0,
            ground arith,
            (omega arith, (id, f, at_i, known, hit), λ i a b. absurd (omega arith)),
          )
          | inr miss ↦ (none, ground arith, at_zero (Passes-of_miss 0 id f at_i known miss))
        ]
      ]
  retreat_lem (suc next) lt =
      let (id, at_i) = get_elem?_of_lt index.preorder (suc next) lt in
      let (o, found, near) = retreat_lem next (omega arith) in
      elim (Option-cases (frame index id)) [
        | inl unknown ↦
            (o, ground arith, extend next o (Passes-of_unknown (suc next) id at_i unknown) near)
        | inr (f, known) ↦ elim (Bool-cases (matches bps f)) [
          | inl hit ↦ (
            some (suc next),
            ground arith,
            (omega arith, (id, f, at_i, known, hit), λ i a b. absurd (omega arith)),
          )
          | inr miss ↦
              (o, ground arith, extend next o (Passes-of_miss (suc next) id f at_i known miss) near)
        ]
      ]

-- What `reverse_continue` makes of the result of its loop.
reverse_landed :
    (c : ReplayCursor) (bps : BreakpointSet) (o : Option ℕ)
    → nat_beq c.pos 0 ≡ false
    → retreat c.index bps (c.pos - 1) ≡ some o
    → Nearest c.index bps (c.pos - 1) o
    → (r : ReplayCursor × Option ℕ) × (reverse_continue c bps ≡ some r) × RunsBack c bps r
unfolding reverse_continue current_frame_id
reverse_landed c bps none later found near = (
  here (moved c 0),
  rw later (rw found refl),
  (inr (refl, λ i lt. near i (omega arith)), (refl, refl)),
)
reverse_landed c bps (some n) later found (le, stops, near) = (
  here (moved c n),
  rw later (rw found refl),
  (inl (ground arith, stops, λ i a lt. near i a (omega arith)), (refl, refl)),
)

-- From a position of the preorder, `reverse_continue` reads no position out of range, and moves to
-- the last earlier frame that a breakpoint matches or, when none does, to the first frame.
pub reverse_continue_lem :
    (c : ReplayCursor) (bps : BreakpointSet)
    → c.pos < length c.index.preorder
    → (r : ReplayCursor × Option ℕ) × (reverse_continue c bps ≡ some r) × RunsBack c bps r
unfolding reverse_continue current_frame_id
reverse_continue_lem c bps valid = elim (Bool-cases (nat_beq c.pos 0)) [
  | inl first ↦
      (here c, rw first, (inr (ground arith, λ i lt. absurd (ground arith)), (refl, refl)))
  | inr later ↦
      let (o, found, near) = retreat_lem c.index bps (c.pos - 1) (ground arith) in
      reverse_landed c bps o later found near
]
