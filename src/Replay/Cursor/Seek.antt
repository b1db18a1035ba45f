-- ===== src/Replay/Cursor/Seek.antt =====
-- `seek_time` and `seek_frame` put the cursor on the frame that they return.
use php_periscope.Common.{
  ℕ, ◌≤◌, ◌<◌, Option, none, some, List, [], ◌∷◌, ◌≡◌, refl, arith, ◌∙◌, length, count, get_elem?,
  subst, map,
}
use php_periscope.Trace.{TraceJson}
use php_periscope.Replay.Index.{preorder_pos_of, frame_at}
use php_periscope.Replay.Index.Positions.{positions_bound, Holds-of_count}
use php_periscope.Replay.Index.Lookup.{preorder_pos_lem, roots_lem, children_of_lem}
use php_periscope.Replay.Index.Build.{preorder-roots, preorder-kids}
use php_periscope.Replay.Index.Windows.{Reached, top, under, Landing, count-First, frame_at-Landing}
use php_periscope.Replay.Cursor.{ReplayCursor, seek_frame, seek_time, current_frame_id, moved}
use php_periscope.Replay.Cursor.Bounds.{Walks, preorder_pos_sound}

count-map_id : (x : ℕ) (xs : List ℕ) → count x (map (λ y. y) xs) ≡ count x xs
count-map_id x [] = refl
count-map_id x (y ∷ ys) = omega (arith, count-map_id x ys)

-- The cursor is on the frame that was found, or where it was when none was.
abbrev pub Sought : ReplayCursor → ReplayCursor × Option ℕ → Type 0
Sought c (c', none) = c'.pos ≡ c.pos
Sought c (c', some id) = current_frame_id c' ≡ some id

module _ (fuel : ℕ) (t : TraceJson) (c : ReplayCursor) (w : Walks fuel t c) where
  -- An id of the preorder has a position there.
  position_of :
      (id : ℕ)
      → 1 ≤ count id c.index.preorder
      → (p : ℕ) × (preorder_pos_of c.index id ≡ some p) × (get_elem? c.index.preorder p ≡ some id)
  position_of id h =
      let (j, held) =
        Holds-of_count (λ (x : ℕ). x) c.index.preorder id
          (omega (arith, count-map_id id c.index.preorder)) in
      let (p, found) = positions_bound (λ (x : ℕ). x) 0 id j c.index.preorder [] held in
      let at_p = preorder_pos_lem fuel t w id ∙ found in
      (p, at_p, preorder_pos_sound fuel t c.index id p w at_p)

  pub Reached-in_preorder :
      (at_time id : ℕ) → Reached c.index at_time id → 1 ≤ count id c.index.preorder
  Reached-in_preorder at_time id (top _ first) =
      preorder-roots fuel t c.index w id
        (subst (λ ks. 1 ≤ count id ks) (roots_lem fuel t w) (count-First c.index at_time first))
  Reached-in_preorder at_time id (under p _ r first) =
      preorder-kids fuel t c.index w p id (Reached-in_preorder at_time p r) (
        subst (λ ks. 1 ≤ count id ks) (children_of_lem fuel t w p)
          (count-First c.index at_time first))

  -- `seek_frame` finds every frame of the preorder, and puts the cursor on it.
  pub seek_frame_lem :
      (id : ℕ)
      → 1 ≤ count id c.index.preorder
      → ((seek_frame c id).1 ≡ some id)
        × (current_frame_id (seek_frame c id).0 ≡ some id)
        × ((seek_frame c id).0.index ≡ c.index)
  unfolding seek_frame current_frame_id
  seek_frame_lem id h =
      let (p, found, at_p) = position_of id h in rw (found, seek_frame) (at_p, at_p, refl)

  sought :
      (rounds at_time : ℕ) (found : Option ℕ)
      → frame_at c.index rounds at_time ≡ some found
      → Landing c.index at_time found
      → (c' : ReplayCursor) × ((seek_time rounds c at_time ≡ some (c', found))
          × (c'.index ≡ c.index)
          × Landing c.index at_time found
          × Sought c (c', found))
  unfolding seek_time current_frame_id
  sought rounds at_time none ends deep = (c, (rw ends refl, refl, deep, refl))
  sought rounds at_time (some id) ends (reached, deep) =
      let (p, found, at_p) = position_of id (Reached-in_preorder at_time id reached) in
      (moved c p, (rw ends (rw (found, seek_time) refl), refl, (reached, deep), at_p))

  -- Given rounds enough for `frame_at`, `seek_time` ends, keeps the index, and returns the frame
  -- that is reached from the roots by going, each time, to the first root or child whose window
  -- holds the time, until no child's does; the cursor is then on that frame. When no root's window
  -- holds the time, it returns nothing and leaves the cursor where it was.
  pub seek_time_lem :
      (rounds at_time : ℕ)
      → length c.index.preorder < rounds
      → (found : Option ℕ) × (c' : ReplayCursor) × ((seek_time rounds c at_time ≡ some (c', found))
          × (c'.index ≡ c.index)
          × Landing c.index at_time found
          × Sought c (c', found))
  seek_time_lem rounds at_time enough =
      let (found, ends, deep) = frame_at-Landing fuel t c.index at_time rounds w enough in
      let (c', result) = sought rounds at_time found ends deep in (found, c', result)
