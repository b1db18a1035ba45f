-- ===== src/Replay/Cursor/Over.antt =====
-- `step_over` skips exactly the frames that hang from the current one.
use php_periscope.Common.{
  ℕ, suc, ◌+◌, ◌≤◌, ◌<◌, some, List, [], ◌∷◌, ◌++◌, Bool, true, false, ◌≡◌, ◌≢◌, refl, arith, sym,
  ◌∙◌, ap, length, length-append, count, get_elem?, drop, drop-length, inl, inr, map_some,
  unwrap_or, subst, ltb, leb, All, All-split, All-get, All-of_count, get_elem?_append,
}
use php_periscope.Trace.{TraceJson, FrameJson}
use php_periscope.Replay.Index.{TraceIndex, frame, kids_of, index_children, index_roots}
use php_periscope.Replay.Index.Positions.{HasDistinct}
use php_periscope.Replay.Index.Links.{child_ids}
use php_periscope.Replay.Index.Forest.{Rooted, root, child}
use php_periscope.Replay.Index.Build.{count-index_roots, count-index_children}
use php_periscope.Replay.Index.Walk.{Walk, preorder-Walk}
use php_periscope.Replay.Index.Lookup.{frame_of_preorder, frame_iff, frame_of_rooted}
use php_periscope.Replay.Index.Stack.{frame_of_child}
use php_periscope.Replay.Cursor.{
  ReplayCursor, step_over, current_frame_id, current_frame, advance, scan, moved, here,
}
use php_periscope.Replay.Cursor.Bounds.{Walks, current_frame-cases}
use php_periscope.Replay.Cursor.Subtree.{Levels, Located, Surfaces, locate}
use mathlib.Core.List.{append_assoc}

-- The recorded depths: `d` at a frame without a parent, and one more than the parent's elsewhere.
abbrev pub HasDepths : ℕ → List FrameJson → Type 0
HasDepths d fs =
    All
      (λ f.
        (f.parent_id ≡ 0 → f.depth ≡ d)
        × All (λ g. g.id ≡ f.parent_id → f.parent_id ≢ 0 → f.depth ≡ suc g.depth) fs)
      fs

module _ (index : TraceIndex) (stop : FrameJson → Bool) where
  abbrev Tested : Bool → ℕ → Type 0
  Tested b x = (f : FrameJson) × (frame index x ≡ some f) × (stop f ≡ b)

  advance-append :
      (next : ℕ) (xs ys : List ℕ)
      → All (Tested false) xs
      → advance index stop next (xs ++ ys) ≡ advance index stop (next + length xs) ys
  unfolding advance
  advance-append next [] ys h = ap (λ n. advance index stop n ys) (omega arith)
  advance-append next (x ∷ xs) ys ((f, known, miss), h) =
      rw (known, advance)
        (rw miss
          (advance-append (suc next) xs ys h ∙ ap (λ n. advance index stop n ys) (omega arith)))

  advance-here :
      (next x : ℕ) (xs : List ℕ) → Tested true x → advance index stop next (x ∷ xs) ≡ next
  unfolding advance
  advance-here next x xs (f, known, hit) = ground arith

-- What `step_over` does, by what follows the tree of the current frame.
abbrev pub Skips : ReplayCursor → List ℕ → List ℕ → Type 0
Skips c sub [] = step_over c ≡ here c
Skips c sub (x ∷ _) = step_over c ≡ (moved c (c.pos + 1 + length sub), some x)

-- The depth of the frame of an id.
abbrev depth_at : TraceIndex → ℕ → ℕ
depth_at index x = unwrap_or (map_some (λ f. f.depth) (frame index x)) 0

module _ (fuel : ℕ) (t : TraceJson) (c : ReplayCursor) (w : Walks fuel t c) (d : ℕ)
    (distinct : HasDistinct (λ f. f.id) t.frames) (depths : HasDepths d t.frames) where
  depth_of_frame :
      (x p : ℕ)
      → 1 ≤ count x (child_ids p t.frames)
      → (j : ℕ) × (f : FrameJson) × (get_elem? t.frames j ≡ some f)
        × (f.parent_id ≡ p)
        × (depth_at c.index x ≡ f.depth)
  depth_of_frame x p h =
      let (j, f, at_j, same, parent) = frame_of_child t.frames p x h in
      let known = (frame_iff fuel t w distinct x f).1 (j, at_j, same) in
      (j, f, at_j, parent, rw known)

  root_levels : Levels (depth_at c.index) (Rooted t.frames) d (index_roots t)
  root_levels = All-of_count _ (index_roots t) (λ x c.
      let top : 1 ≤ count x (child_ids 0 t.frames) = omega (arith, count-index_roots t x) in
      let (j, f, at_j, parent, e) = depth_of_frame x 0 top in
      (e ∙ (All-get _ t.frames j depths at_j).0 parent, root x top))

  kid_levels :
      (p : ℕ)
      → Rooted t.frames p
      → Levels
          (depth_at c.index)
          (Rooted t.frames)
          (suc (depth_at c.index p))
          (kids_of (index_children t) p)
  kid_levels p r =
      let (g, known) = frame_of_rooted fuel t w r in
      let (i, at_i, same) = (frame_iff fuel t w distinct p g).0 known in
      All-of_count _ (kids_of (index_children t) p) (λ x c.
        let ne : p ≢ 0 = ground (arith, count-index_children t x p) in
        let under : 1 ≤ count x (child_ids p t.frames) =
          ground (arith, count-index_children t x p) in
        let (j, f, at_j, parent, e) = depth_of_frame x p under in
        let below =
          All-get _ t.frames i (All-get _ t.frames j depths at_j).1 at_i (same ∙ sym parent)
            (λ z. ne (sym parent ∙ z)) in
        (e ∙ below ∙ ap suc (sym (rw known)), child p x r ne under))

  located :
      (k : ℕ)
      → current_frame_id c ≡ some k
      → Located
          (index_children t)
          (depth_at c.index)
          (Rooted t.frames)
          kid_levels
          c.index.preorder
          k
          c.pos
  unfolding current_frame_id
  located k at_pos =
      locate (index_children t) (depth_at c.index) (Rooted t.frames) kid_levels d c.pos k
        (preorder-Walk fuel t w) root_levels at_pos

abbrev Known : TraceIndex → ℕ → Type 0
Known index x = (f : FrameJson) × (frame index x ≡ some f)

Tested-deeper :
    (index : TraceIndex) (cur : FrameJson) (xs : List ℕ)
    → All (λ x. cur.depth < depth_at index x) xs
    → All (Known index) xs
    → All (Tested index (λ f. leb f.depth cur.depth) false) xs
Tested-deeper index cur [] h ks = tt
Tested-deeper index cur (x ∷ xs) (lt, h) ((f, known), ks) =
    let e : depth_at index x ≡ f.depth = rw known in
    ((f, known, ground arith), Tested-deeper index cur xs h ks)

Tested-surface :
    (index : TraceIndex) (cur : FrameJson) (x : ℕ)
    → depth_at index x ≤ cur.depth
    → Known index x
    → Tested index (λ f. leb f.depth cur.depth) true x
Tested-surface index cur x le (f, known) =
    let e : depth_at index x ≡ f.depth = rw known in (f, known, ground arith)

module _ (fuel : ℕ) (t : TraceJson) (c : ReplayCursor) (w : Walks fuel t c) (d : ℕ)
    (distinct : HasDistinct (λ f. f.id) t.frames) (depths : HasDepths d t.frames) where
  abbrev Place : ℕ → Type 0
  Place k =
      Located (index_children t) (depth_at c.index) (Rooted t.frames)
        (kid_levels fuel t c w d distinct depths) c.index.preorder k c.pos

  -- The loop of `step_over` passes what hangs from the current frame.
  scan_located :
      (k : ℕ) (cur : FrameJson)
      → frame c.index k ≡ some cur
      → (l : Place k)
      → (scan c (λ f. leb f.depth cur.depth)
          ≡ advance c.index (λ f. leb f.depth cur.depth) (c.pos + 1 + length l.sub) l.after)
        × All (Known c.index) l.after
  scan_located k cur known l =
      let test = λ (f : FrameJson). leb f.depth cur.depth in
      let depth_k : depth_at c.index k ≡ cur.depth = rw known in
      let frames : All (Known c.index) c.index.preorder =
        All-of_count _ c.index.preorder (frame_of_preorder fuel t w) in
      let (_, (_, later)) =
        All-split _ l.before (k ∷ (l.sub ++ l.after))
          (subst (All (Known c.index)) l.splits frames) in
      let (subs, afters) = All-split _ l.sub l.after later in
      let rest : drop (c.pos + 1) c.index.preorder ≡ l.sub ++ l.after =
        ap (drop (c.pos + 1)) l.splits
        ∙ ap (λ n. drop n (l.before ++ k ∷ (l.sub ++ l.after))) {y = suc (length l.before)}
            (omega (arith, l.position))
        ∙ drop-length l.before (l.sub ++ l.after) k in
      let deep = subst (λ n. All (λ x. n < depth_at c.index x) l.sub) depth_k l.deeper in
      (
        ap (advance c.index test (c.pos + 1)) rest
            ∙ advance-append c.index test (c.pos + 1) l.sub l.after
                (Tested-deeper c.index cur l.sub deep subs),
        afters,
      )

  length_located :
      (k : ℕ) (l : Place k) → length c.index.preorder ≡ c.pos + 1 + length l.sub + length l.after
  length_located k l =
      ap length l.splits
      ∙ omega (
        arith,
        l.position,
        length-append {0} l.before (k ∷ (l.sub ++ l.after)),
        length-append {0} l.sub l.after,
      )

  after_located :
      (k : ℕ) (l : Place k) (x : ℕ) (rest : List ℕ)
      → l.after ≡ x ∷ rest
      → get_elem? c.index.preorder (c.pos + 1 + length l.sub) ≡ some x
  after_located k l x rest e =
      let u = l.before ++ k ∷ l.sub in
      let n : c.pos + 1 + length l.sub ≡ length u =
        omega (arith, l.position, length-append {0} l.before (k ∷ l.sub)) in
      let splits : c.index.preorder ≡ u ++ x ∷ rest =
        l.splits
        ∙ ap (λ v. l.before ++ k ∷ (l.sub ++ v)) e
        ∙ sym (append_assoc l.before (k ∷ l.sub) (x ∷ rest)) in
      ap (λ v. get_elem? v (c.pos + 1 + length l.sub)) splits
      ∙ ap (get_elem? (u ++ x ∷ rest)) n
      ∙ get_elem?_append u rest x

  skips :
      (k : ℕ) (cur : FrameJson) (l : Place k) (after : List ℕ)
      → current_frame c ≡ some cur
      → frame c.index k ≡ some cur
      → l.after ≡ after
      → (scan c (λ f. leb f.depth cur.depth)
          ≡ advance c.index (λ f. leb f.depth cur.depth) (c.pos + 1 + length l.sub) after)
      → All (Known c.index) after
      → Surfaces (depth_at c.index) (depth_at c.index k) after
      → Skips c l.sub after
  unfolding step_over advance current_frame_id
  skips k cur l [] now known same e ks surf =
      let size = length_located k l in
      let none_left = ap length same in
      let ends : scan c (λ f. leb f.depth cur.depth) ≡ c.pos + 1 + length l.sub = e in
      let stays : ltb (scan c (λ f. leb f.depth cur.depth)) (length c.index.preorder) ≡ false =
        ground arith in
      rw (now, step_over) (rw stays)
  skips k cur l (x ∷ rest) now known same e (k', ks) surf =
      let size = length_located k l in
      let some_left = ap length same in
      let depth_k : depth_at c.index k ≡ cur.depth = rw known in
      let le : depth_at c.index x ≤ cur.depth = omega arith in
      let next : scan c (λ f. leb f.depth cur.depth) ≡ c.pos + 1 + length l.sub =
        e ∙ advance-here c.index _ _ x rest (Tested-surface c.index cur x le k') in
      let moves : ltb (c.pos + 1 + length l.sub) (length c.index.preorder) ≡ true = ground arith in
      rw (now, step_over)
        (rw next (
          rw moves
            (ap (λ o. (moved c (c.pos + 1 + length l.sub), o)) (after_located k l x rest same))))

  -- In a trace whose frames have distinct ids and whose recorded depth grows by one from a frame
  -- to its children, the preorder after the current frame is first all that hangs from it and
  -- then, unless it ends, a frame `x` to which `step_over` moves and which it returns; where it
  -- ends, `step_over` leaves the cursor on the current frame.
  pub step_over_subtree :
      (k : ℕ)
      → current_frame_id c ≡ some k
      → (before sub after : List ℕ) × ((c.index.preorder ≡ before ++ k ∷ (sub ++ after))
          × (length before ≡ c.pos)
          × Walk (index_children t) (kids_of (index_children t) k) sub
          × Skips c sub after)
  step_over_subtree k at_pos = elim (current_frame-cases fuel t c w) [
    | inl (off, _) ↦ absurd (cc (off, at_pos))
    | inr (id, cur, at_id, known', now) ↦
        let l = located fuel t c w d distinct depths k at_pos in
        let ids : id ≡ k = ground arith in
        let known : frame c.index k ≡ some cur = rw (← ids) known' in
        let (e, ks) = scan_located k cur known l in
        (
          l.before,
          l.sub,
          l.after,
          (l.splits, l.position, l.tree, skips k cur l l.after now known refl e ks l.surfaces),
        )
  ]
