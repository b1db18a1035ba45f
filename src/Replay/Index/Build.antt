-- ===== src/Replay/Index/Build.antt =====
-- `TraceIndex::build` as a whole: it ends, and its preorder lists each frame that hangs from a
-- root exactly once.
use php_periscope.Common.{
  All-of_count, of_All_of_count, ℕ, zero, suc, ◌+◌, ◌≤◌, none, some, List, [], ◌∷◌, ◌≡◌, ◌≢◌, ◌↔◌,
  refl, arith, nat_beq, if◌then◌else◌, length, count, Bool-cases, inl, inr, ap, sym, Option-cases,
  ◌∙◌, All, All-append, subst,
}
use php_periscope.Common.Maps.{Map}
use php_periscope.Trace.{TraceJson}
use php_periscope.Replay.Index.{
  TraceIndex, kids_of, traverse, build, assemble, enter_of, index_children, index_roots,
}
use php_periscope.Replay.Index.Positions.{HasDistinct}
use php_periscope.Replay.Index.Links.{child_ids}
use php_periscope.Replay.Index.Traverse.{gained, traverse_closed, traverse_total}
use php_periscope.Replay.Index.Forest.{
  ids_of, count-edges, count-tops, edges-IsForest, Rooted, root, child,
}

gained-ge :
    (m : Map ℕ (List ℕ)) (x p : ℕ) (ps : List ℕ)
    → 1 ≤ count p ps
    → count x (kids_of m p) ≤ gained m x ps
gained-ge m x p [] h = absurd (omega arith)
gained-ge m x p (q ∷ ps) h = elim (Bool-cases (nat_beq p q)) [
  | inl same ↦ let e : p ≡ q = ground arith in rw e (omega arith)
  | inr other ↦ let deeper = gained-ge m x p ps (ground arith) in omega arith
]

-- What a traversal visits satisfies whatever the roots do and the children of such do.
traverse-All {ℓ} :
    (P : ℕ → Type ℓ) (m : Map ℕ (List ℕ))
    → ((p : ℕ) → P p → All P (kids_of m p))
    → (fuel : ℕ) (stack out : List ℕ) {pre : List ℕ} → All P stack
    → All P out
    → traverse m fuel stack out ≡ some pre
    → All P pre
unfolding traverse
traverse-All P m keep fuel [] out {pre} s o h =
    let e : out ≡ pre = ground arith in subst (All P) e o
traverse-All P m keep zero (id ∷ stack) out s o h = absurd (cc h)
traverse-All P m keep (suc fuel) (id ∷ stack) out (p, s) o h =
    traverse-All P m keep fuel _ _ (All-append P _ stack (keep id p) s)
      (All-append P out (id ∷ []) o (p, tt)) h

-- A built index is the struct over the preorder that the traversal returns.
pub built_of_build :
    (fuel : ℕ) (t : TraceJson) {index : TraceIndex}
    → build fuel t ≡ some index
    → (index ≡ assemble t index.preorder)
      × (traverse (index_children t) fuel (index_roots t) [] ≡ some index.preorder)
unfolding build
built_of_build fuel t {index} h =
    elim (Option-cases (traverse (index_children t) fuel (index_roots t) [])) [
      | inl stuck ↦ absurd (cc (rw stuck at h))
      | inr (pre, ends) ↦
          let e : some (assemble t pre) ≡ some index = rw ends at h in
          let same : assemble t pre ≡ index = cc in
          let order : pre ≡ index.preorder = ap (λ (i : TraceIndex). i.preorder) same in
          (sym same ∙ ap (assemble t) order, ends ∙ ap some order)
    ]

pub count-index_roots :
    (t : TraceJson) (x : ℕ) → count x (index_roots t) ≡ count x (child_ids 0 t.frames)
unfolding index_roots
count-index_roots t x = count-tops (enter_of t) t.frames x

pub count-index_children :
    (t : TraceJson) (x p : ℕ)
    → count x (kids_of (index_children t) p)
      ≡ (if nat_beq p 0 then 0 else count x (child_ids p t.frames))
unfolding index_children
count-index_children t x p = count-edges (enter_of t) t.frames x p

module _ (fuel : ℕ) (t : TraceJson) where
  pub Rooted-roots : All (Rooted t.frames) (index_roots t)
  unfolding index_roots
  Rooted-roots =
      All-of_count (Rooted t.frames) (index_roots t)
        (λ x c. root x (omega (arith, count-tops (enter_of t) t.frames x)))

  pub Rooted-kids :
      (p : ℕ) → Rooted t.frames p → All (Rooted t.frames) (kids_of (index_children t) p)
  unfolding index_children
  Rooted-kids p r = All-of_count (Rooted t.frames) _ (λ x c. elim (Bool-cases (nat_beq p 0)) [
    | inl none_filed ↦ absurd (ground (arith, count-edges (enter_of t) t.frames x p))
    | inr parent ↦
        child p x r (ground arith) (ground (arith, count-edges (enter_of t) t.frames x p))
  ])

  visited_of_rooted :
      (pre : List ℕ)
      → ((x : ℕ) → count x pre ≡ count x (index_roots t) + gained (index_children t) x pre)
      → {x : ℕ} → Rooted t.frames x
      → 1 ≤ count x pre
  unfolding index_roots index_children
  visited_of_rooted pre closed (root x h) =
      omega (arith, closed x, count-tops (enter_of t) t.frames x)
  visited_of_rooted pre closed (child p x r ne h) =
      let here = gained-ge (index_children t) x p pre (visited_of_rooted pre closed r) in
      ground (arith, closed x, count-edges (enter_of t) t.frames x p)

  -- When no two frames share an id, `build` ends after as many pops as there are frames.
  pub build_total :
      HasDistinct (λ f. f.id) t.frames
      → length (ids_of t.frames) ≤ fuel
      → (index : TraceIndex) × (build fuel t ≡ some index) × ((x : ℕ) → count x index.preorder ≤ 1)
  unfolding build index_roots index_children
  build_total d h =
      let (pre, ends, once) =
        traverse_total (index_children t) (index_roots t) (ids_of t.frames) d
          (edges-IsForest (enter_of t) t.frames) fuel h in
      (assemble t pre, rw ends refl, λ x. omega (arith, once x, d x))

  module _ (index : TraceIndex) (h : build fuel t ≡ some index) where
    -- The preorder holds the roots, and the children of what it holds.
    pub preorder-roots : (x : ℕ) → 1 ≤ count x (index_roots t) → 1 ≤ count x index.preorder
    preorder-roots x c =
        let (_, visits) = built_of_build fuel t h in
        omega (arith, traverse_closed _ _ fuel visits x)

    pub preorder-kids :
        (p x : ℕ)
        → 1 ≤ count p index.preorder
        → 1 ≤ count x (kids_of (index_children t) p)
        → 1 ≤ count x index.preorder
    preorder-kids p x cp cx =
        let (_, visits) = built_of_build fuel t h in
        omega (
          arith,
          traverse_closed _ _ fuel visits x,
          gained-ge (index_children t) x p index.preorder cp,
        )

    pub preorder_complete : {x : ℕ} → Rooted t.frames x → 1 ≤ count x index.preorder
    preorder_complete r =
        let (_, visits) = built_of_build fuel t h in
        visited_of_rooted index.preorder (traverse_closed _ _ fuel visits) r

    pub preorder-sound : (x : ℕ) → 1 ≤ count x index.preorder → Rooted t.frames x
    preorder-sound x c =
        let (_, visits) = built_of_build fuel t h in
        of_All_of_count (Rooted t.frames) index.preorder x
          (traverse-All _ (index_children t) Rooted-kids fuel _ [] Rooted-roots tt visits) c

    pub preorder_lem : (x : ℕ) → (1 ≤ count x index.preorder) ↔ Rooted t.frames x
    preorder_lem x = (preorder-sound x, λ r. preorder_complete r)

  -- When no two frames share an id, `build` ends once its traversal has as many rounds as there
  -- are frames, and the preorder lists exactly the frames whose chain of parents ends at a frame
  -- without a parent, each once.
  pub build_preorder :
      HasDistinct (λ f. f.id) t.frames
      → length (ids_of t.frames) ≤ fuel
      → (index : TraceIndex) × (build fuel t ≡ some index)
        × ((x : ℕ) → (1 ≤ count x index.preorder) ↔ Rooted t.frames x)
        × ((x : ℕ) → count x index.preorder ≤ 1)
  build_preorder d h =
      let (index, ends, once) = build_total d h in (index, ends, preorder_lem index ends, once)

  gained_self :
      (m : Map ℕ (List ℕ)) (k : ℕ) (ps : List ℕ)
      → 1 ≤ count k (kids_of m k)
      → count k ps ≤ gained m k ps
  gained_self m k [] h = omega arith
  gained_self m k (p ∷ ps) h = elim (Bool-cases (nat_beq k p)) [
    | inl same ↦
        let e : p ≡ k = ground arith in
        let deeper = gained_self m k ps h in
        let more : 1 ≤ count k (kids_of m p) = rw e h in ground arith
    | inr other ↦ let deeper = gained_self m k ps h in ground arith
  ]

  -- When an id is both that of a frame without a parent and that of a frame whose parent it is,
  -- the traversal of `build` ends after no number of rounds.
  pub build_diverges :
      (k : ℕ)
      → k ≢ 0
      → 1 ≤ count k (child_ids 0 t.frames)
      → 1 ≤ count k (child_ids k t.frames)
      → build fuel t ≡ none
  unfolding index_roots index_children
  build_diverges k ne top self = elim (Option-cases (build fuel t)) [
    | inl e ↦ e
    | inr (index, h) ↦
        let (_, visits) = built_of_build fuel t h in
        let balance = traverse_closed _ _ fuel visits k in
        let kid : 1 ≤ count k (kids_of (index_children t) k) =
          ground (arith, count-edges (enter_of t) t.frames k k) in
        absurd (
          omega (
            arith,
            balance,
            gained_self (index_children t) k index.preorder kid,
            count-tops (enter_of t) t.frames k,
          ))
  ]
