-- ===== src/Replay/Index/Forest.antt =====
-- The edges that `TraceIndex::build` finds form a forest when no two frames share an id, so the
-- traversal ends and visits what hangs from a root.
use php_periscope.Common.{
  ℕ, ◌+◌, ◌≤◌, List, [], ◌∷◌, ◌≡◌, ◌≢◌, refl, arith, nat_beq, if◌then◌else◌, count, map, Bool-cases,
  inl, inr, ap, ◌∙◌,
}
use php_periscope.Common.Maps.{Map}
use php_periscope.Common.Sort.{sort_by_key, count_where-sort_by, by_key}
use php_periscope.Trace.{FrameJson}
use php_periscope.Replay.Index.{kids_of, link_frames, sort_children}
use php_periscope.Replay.Index.Links.{child_ids, children_lem, roots_lem, children_zero}
use php_periscope.Replay.Index.Traverse.{gained, IsForest}

-- The ids of the frames of a trace.
abbrev pub ids_of : List FrameJson → List ℕ
ids_of = map (λ f. f.id)

-- How often `x` is the id of a frame whose parent is a member of `ps`, 0 being no parent.
abbrev below : ℕ → List FrameJson → List ℕ → ℕ
below x fs [] = 0
below x fs (p ∷ ps) = (if nat_beq p 0 then 0 else count x (child_ids p fs)) + below x fs ps

below_frame :
    (x : ℕ) (f : FrameJson) (fs : List FrameJson) (ps : List ℕ)
    → below x (f ∷ fs) ps
      ≡ below x fs ps
        + (if nat_beq f.parent_id 0 then 0 else if nat_beq x f.id then count f.parent_id ps else 0)
below_frame x f fs [] = ground arith
below_frame x f fs (p ∷ ps) = ground (arith, below_frame x f fs ps)

below_nil : (x : ℕ) (ps : List ℕ) → below x [] ps ≡ 0
below_nil x [] = refl
below_nil x (p ∷ ps) = ground (arith, below_nil x ps)

-- Each frame is a root, or the child of one id.
below-le :
    (x : ℕ) (fs : List FrameJson) (ps : List ℕ)
    → ((y : ℕ) → count y ps ≤ 1)
    → count x (child_ids 0 fs) + below x fs ps ≤ count x (ids_of fs)
below-le x [] ps h = omega (arith, below_nil x ps)
below-le x (f ∷ fs) ps h = ground (arith, below_frame x f fs ps, below-le x fs ps h, h f.parent_id)

module _ (key : ℕ → ℕ) (fs : List FrameJson) where
  abbrev pub edges : Map ℕ (List ℕ)
  edges = sort_children key (link_frames fs ([], [])).0

  abbrev pub tops : List ℕ
  tops = sort_by_key key (link_frames fs ([], [])).1

  pub count-edges :
      (x p : ℕ) → count x (kids_of edges p) ≡ (if nat_beq p 0 then 0 else count x (child_ids p fs))
  count-edges x p = elim (Bool-cases (nat_beq p 0)) [
    | inl zeroed ↦
        let e : p ≡ 0 = ground arith in
        rw zeroed (ap (λ q. count x (kids_of edges q)) e ∙ ap (count x) (children_zero key fs))
    | inr parent ↦
        let e : p ≢ 0 = ground arith in
        rw parent (
          ap (count x) (children_lem key fs p e)
          ∙ count_where-sort_by (by_key key) (nat_beq x) (child_ids p fs))
  ]

  pub count-tops : (x : ℕ) → count x tops ≡ count x (child_ids 0 fs)
  count-tops x = count_where-sort_by (by_key key) (nat_beq x) _ ∙ ap (count x) (roots_lem fs)

  gained-eq-below : (x : ℕ) (ps : List ℕ) → gained edges x ps ≡ below x fs ps
  gained-eq-below x [] = refl
  gained-eq-below x (p ∷ ps) = omega (arith, count-edges x p, gained-eq-below x ps)

  pub edges-IsForest : IsForest edges tops (ids_of fs)
  edges-IsForest ps h x = omega (arith, gained-eq-below x ps, count-tops x, below-le x fs ps h)

-- A frame that its chain of parents ties to a root.
pub data Rooted (fs : List FrameJson) : ℕ → Type 0 where
  root : (x : ℕ) → 1 ≤ count x (child_ids 0 fs) → Rooted fs x
  child : (p x : ℕ) → Rooted fs p → p ≢ 0 → 1 ≤ count x (child_ids p fs) → Rooted fs x
