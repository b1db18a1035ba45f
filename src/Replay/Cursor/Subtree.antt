-- ===== src/Replay/Cursor/Subtree.antt =====
-- Where a frame stands in the walk of a call tree: before all that hangs from it.
use php_periscope.Common.{
  ℕ, zero, suc, ◌+◌, ◌≤◌, ◌<◌, some, List, [], ◌∷◌, ◌++◌, ◌≡◌, refl, arith, sym, ◌∙◌, ap, length,
  get_elem?, inl, inr, subst, All, All-map, All-append, ◌⊎◌,
}
use php_periscope.Common.Maps.{Map}
use php_periscope.Replay.Index.{kids_of}
use php_periscope.Replay.Index.Walk.{Walk, stop, visit}
use mathlib.Core.List.{append_assoc}

-- Frames of one depth.
abbrev pub Levels : (ℕ → ℕ) → (ℕ → Type 0) → ℕ → List ℕ → Type 0
Levels depth Known d = All (λ x. (depth x ≡ d) × Known x)

-- The first of the list, if there is one, is not deeper than `d`.
abbrev pub Surfaces : (ℕ → ℕ) → ℕ → List ℕ → Type 0
Surfaces depth d [] = Unit
Surfaces depth d (x ∷ _) = depth x ≤ d

-- A depth that is one more at each child of a known frame.
module _ (m : Map ℕ (List ℕ)) (depth : ℕ → ℕ) (Known : ℕ → Type 0)
    (grows : (p : ℕ) → Known p → Levels depth Known (suc (depth p)) (kids_of m p)) where
  Walk-depth :
      (d : ℕ) {ks w : List ℕ} → Walk m ks w → Levels depth Known d ks → All (λ x. d ≤ depth x) w
  Walk-depth d stop h = tt
  Walk-depth d (visit k {sub = sub} {rest = rest} s r) ((e, known), h) =
      let below = Walk-depth (suc (depth k)) s (grows k known) in
      (
        omega arith,
        All-append _ sub rest (All-map _ _ (λ x le. omega arith) sub below) (Walk-depth d r h),
      )

  Surfaces-append :
      (d : ℕ) (xs ys : List ℕ)
      → Surfaces depth d xs
      → Surfaces depth d ys
      → Surfaces depth d (xs ++ ys)
  Surfaces-append d [] ys h k = k
  Surfaces-append d (x ∷ xs) ys h k = h

  Walk-Surfaces :
      (d : ℕ) {ks w : List ℕ} → Walk m ks w → Levels depth Known d ks → Surfaces depth d w
  Walk-Surfaces d stop h = tt
  Walk-Surfaces d (visit k s r) ((e, known), h) = omega arith

  -- Where a frame stands in a walk: what hangs from it follows it, all of it deeper, and then
  -- comes a frame that is not deeper, or the end.
  pub record Located (w : List ℕ) (k i : ℕ) : Type 0 where
    pub before : List ℕ
    pub sub : List ℕ
    pub after : List ℕ
    pub splits : w ≡ before ++ k ∷ (sub ++ after)
    pub position : length before ≡ i
    pub tree : Walk m (kids_of m k) sub
    pub deeper : All (λ x. depth k < depth x) sub
    pub surfaces : Surfaces depth (depth k) after

  Located-cons : (j : ℕ) (w : List ℕ) (k i : ℕ) → Located w k i → Located (j ∷ w) k (suc i)
  Located-cons j w k i l = record {
    before = j ∷ l.before;
    sub = l.sub;
    after = l.after;
    splits = ap (◌∷◌ j) l.splits;
    position = ap suc l.position;
    tree = l.tree;
    deeper = l.deeper;
    surfaces = l.surfaces;
  }

  Located-right : (u w : List ℕ) (k i : ℕ) → Located w k i → Located (u ++ w) k (length u + i)
  Located-right [] w k i l = subst (Located w k) (omega arith) l
  Located-right (x ∷ u) w k i l =
      subst (Located (x ∷ (u ++ w)) k) (omega arith)
        (Located-cons x (u ++ w) k (length u + i) (Located-right u w k i l))

  Located-left :
      (w rest : List ℕ) (k i : ℕ)
      → Surfaces depth (depth k) rest
      → Located w k i
      → Located (w ++ rest) k i
  Located-left w rest k i h l = record {
    before = l.before;
    sub = l.sub;
    after = l.after ++ rest;
    splits =
        ap (λ v. v ++ rest) l.splits
        ∙ append_assoc l.before (k ∷ (l.sub ++ l.after)) rest
        ∙ ap (λ v. l.before ++ k ∷ v) (append_assoc l.sub l.after rest);
    position = l.position;
    tree = l.tree;
    deeper = l.deeper;
    surfaces = Surfaces-append (depth k) l.after rest l.surfaces h;
  }

  get_elem?_append-cases :
      (u v : List ℕ) (i k : ℕ)
      → get_elem? (u ++ v) i ≡ some k
      → (get_elem? u i ≡ some k) ⊎ ((j : ℕ) × (i ≡ length u + j) × (get_elem? v j ≡ some k))
  get_elem?_append-cases [] v i k h = inr (i, omega arith, h)
  get_elem?_append-cases (x ∷ u) v zero k h = inl h
  get_elem?_append-cases (x ∷ u) v (suc i) k h = elim (get_elem?_append-cases u v i k h) [
    | inl left ↦ inl left
    | inr (j, e, right) ↦ inr (j, omega arith, right)
  ]

  Surfaces-mono : (d e : ℕ) (xs : List ℕ) → d ≤ e → Surfaces depth d xs → Surfaces depth e xs
  Surfaces-mono d e [] le h = tt
  Surfaces-mono d e (x ∷ xs) le h = omega arith

  depth_of_walk :
      (d : ℕ) (w : List ℕ) (i k : ℕ)
      → All (λ x. d ≤ depth x) w
      → get_elem? w i ≡ some k
      → d ≤ depth k
  depth_of_walk d [] i k h e = absurd (cc e)
  depth_of_walk d (x ∷ w) zero k (le, h) e = ground arith
  depth_of_walk d (x ∷ w) (suc i) k (le, h) e = depth_of_walk d w i k h e

  pub locate :
      (d : ℕ) {ks w : List ℕ} (i k : ℕ)
      → Walk m ks w
      → Levels depth Known d ks
      → get_elem? w i ≡ some k
      → Located w k i
  locate d i k stop h e = absurd (cc e)
  locate d zero k (visit j {sub = sub} {rest = rest} s r) ((same, known), h) e =
      let eq : j ≡ k = ground arith in
      record {
        before = [];
        sub = sub;
        after = rest;
        splits = ap (λ (x : ℕ). x ∷ (sub ++ rest)) eq;
        position = refl;
        tree = subst (λ x. Walk m (kids_of m x) sub) eq s;
        deeper =
            subst (λ x. All (λ y. depth x < depth y) sub) eq
              (Walk-depth (suc (depth j)) s (grows j known));
        surfaces =
            subst (λ x. Surfaces depth (depth x) rest) eq
              (subst (λ n. Surfaces depth n rest) (sym same) (Walk-Surfaces d r h));
      }
  locate d (suc i) k (visit j {sub = sub} {rest = rest} s r) ((same, known), h) e =
      elim (get_elem?_append-cases sub rest i k e) [
        | inl inside ↦
            let deep =
              depth_of_walk (suc (depth j)) sub i k (Walk-depth (suc (depth j)) s (grows j known))
                inside in
            Located-cons j (sub ++ rest) k i (
              Located-left sub rest k i
                (Surfaces-mono d (depth k) rest (omega arith) (Walk-Surfaces d r h))
                (locate (suc (depth j)) i k s (grows j known) inside))
        | inr (i', at_i', later) ↦ Located-cons j (sub ++ rest) k i (
            subst (Located (sub ++ rest) k) (sym at_i')
              (Located-right sub rest k i' (locate d i' k r h later)))
      ]
