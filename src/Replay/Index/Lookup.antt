-- ===== src/Replay/Index/Lookup.antt =====
-- `TraceIndex::frame`, `event`, `children_of` and `preorder_pos_of` on an index that `build` made.
use php_periscope.Common.{
  ℕ, ◌≤◌, some, List, [], ◌∷◌, ◌≡◌, ◌≢◌, ◌↔◌, arith, ap, sym, ◌∙◌, count, get_elem?, nat_beq,
  nat_eq,
}
use php_periscope.Common.Maps.{get}
use php_periscope.Common.Sort.{IsSorted, by_key, IsSorted-sort_by_key, count_where-sort_by}
use php_periscope.Trace.{TraceJson, FrameJson}
use php_periscope.Replay.Index.{
  TraceIndex, build, assemble, frame, event, children_of, kids_of, positions, enter_of,
  index_children, index_roots, preorder_pos_of,
}
use php_periscope.Replay.Index.Positions.{HasDistinct, find, find_sound, find_total, find_get}
use php_periscope.Replay.Index.Links.{child_ids, children_lem}
use php_periscope.Replay.Index.Forest.{ids_of, Rooted, root, child}
use php_periscope.Replay.Index.Build.{built_of_build, preorder-sound}

count-child_ids-le :
    (x p : ℕ) (fs : List FrameJson) → count x (child_ids p fs) ≤ count x (ids_of fs)
count-child_ids-le x p [] = omega arith
count-child_ids-le x p (f ∷ fs) = ground (arith, count-child_ids-le x p fs)

count_of_rooted : {fs : List FrameJson} {x : ℕ} → Rooted fs x → 1 ≤ count x (ids_of fs)
count_of_rooted {fs} (root x h) = omega (arith, count-child_ids-le x 0 fs)
count_of_rooted {fs} (child p x r ne h) = omega (arith, count-child_ids-le x p fs)

module _ (fuel : ℕ) (t : TraceJson) {index : TraceIndex} (h : build fuel t ≡ some index) where
  pub frame_lem : (k : ℕ) → frame index k ≡ find (λ f. f.id) t.frames k
  unfolding frame assemble
  frame_lem k = ap (λ (i : TraceIndex). frame i k) (built_of_build fuel t h).0

  pub event_lem : (k : ℕ) → event index k ≡ find (λ e. e.id) t.observability_events k
  unfolding event assemble
  event_lem k = ap (λ (i : TraceIndex). event i k) (built_of_build fuel t h).0

  pub children_of_lem : (k : ℕ) → children_of index k ≡ kids_of (index_children t) k
  unfolding children_of assemble
  children_of_lem k = ap (λ (i : TraceIndex). children_of i k) (built_of_build fuel t h).0

  pub roots_lem : index.roots ≡ index_roots t
  unfolding assemble
  roots_lem = ap (λ (i : TraceIndex). i.roots) (built_of_build fuel t h).0

  pub preorder_pos_lem :
      (k : ℕ) → preorder_pos_of index k ≡ get (positions (λ id. id) 0 index.preorder []) k
  unfolding preorder_pos_of assemble
  preorder_pos_lem k = ap (λ (i : TraceIndex). preorder_pos_of i k) (built_of_build fuel t h).0

  pub frame_of_rooted : {x : ℕ} → Rooted t.frames x → (f : FrameJson) × (frame index x ≡ some f)
  frame_of_rooted {x} r =
      let (f, found) = find_total (λ f. f.id) t.frames x (count_of_rooted r) in
      (f, frame_lem x ∙ found)

  -- Every id of the preorder is that of a frame.
  pub frame_of_preorder :
      (x : ℕ) → 1 ≤ count x index.preorder → (f : FrameJson) × (frame index x ≡ some f)
  frame_of_preorder x c = frame_of_rooted (preorder-sound fuel t index h x c)

  -- With distinct ids, `frame` returns exactly the frame of the trace that has the id.
  pub frame_iff :
      HasDistinct (λ f. f.id) t.frames
      → (k : ℕ) (f : FrameJson)
      → (frame index k ≡ some f) ↔ ((j : ℕ) × (get_elem? t.frames j ≡ some f) × (f.id ≡ k))
  frame_iff d k f = (
    λ found. find_sound (λ f. f.id) t.frames k (sym (frame_lem k) ∙ found),
    λ (j, at_j, same).
        frame_lem k ∙ ap (find _ t.frames) (sym same) ∙ find_get (λ f. f.id) t.frames j f d at_j,
  )

  -- The children of a frame are the frames that name it as their parent, in call order.
  pub children_of_call_order :
      (p : ℕ)
      → p ≢ 0
      → IsSorted (by_key (enter_of t)) (children_of index p)
        × ((x : ℕ) → count x (children_of index p) ≡ count x (child_ids p t.frames))
  unfolding index_children
  children_of_call_order p ne =
      let e = children_of_lem p ∙ children_lem (enter_of t) t.frames p ne in
      rw e (
        IsSorted-sort_by_key (enter_of t) _,
        λ x. count_where-sort_by (by_key (enter_of t)) (nat_beq x) _,
      )
