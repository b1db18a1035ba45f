-- ===== src/Replay/Index/Walk.antt =====
-- The preorder as a walk of the call tree: a frame, then all that hangs from its children, then
-- its later siblings.
use php_periscope.Common.{
  ℕ, zero, suc, ◌≤◌, ◌<◌, some, List, [], ◌∷◌, ◌++◌, ◌≡◌, refl, arith, nat_beq, ap, sym, ◌∙◌,
  length, length-append, count, Bool-cases, inl, inr, subst,
}
use php_periscope.Common.Maps.{Map}
use php_periscope.Trace.{TraceJson}
use php_periscope.Replay.Index.{TraceIndex, kids_of, traverse, build, index_children, index_roots}
use php_periscope.Replay.Index.Build.{built_of_build}
use mathlib.Core.List.{append-nil, append_assoc}

-- `Walk m ks w`: `w` is the preorder of the trees whose roots are `ks`.
pub data Walk (m : Map ℕ (List ℕ)) : List ℕ → List ℕ → Type 0 where
  stop : Walk m [] []
  visit :
      (k : ℕ) {ks sub rest : List ℕ}
      → Walk m (kids_of m k) sub
      → Walk m ks rest
      → Walk m (k ∷ ks) (k ∷ (sub ++ rest))

module _ (m : Map ℕ (List ℕ)) where
  Walk-split :
      (a b : List ℕ) {w : List ℕ}
      → Walk m (a ++ b) w
      → (u v : List ℕ) × Walk m a u × Walk m b v × (w ≡ u ++ v)
  Walk-split [] b {w} h = ([], w, stop, h, refl)
  Walk-split (x ∷ a) b (visit _ {sub = sub} {rest = rest} s r) =
      let (u, v, hu, hv, e) = Walk-split a b r in
      (
        x ∷ (sub ++ u),
        v,
        visit x s hu,
        hv,
        ap (◌∷◌ x) (ap (◌++◌ sub) e ∙ sym (append_assoc sub u v)),
      )

  traverse-Walk :
      (fuel : ℕ) (stack out : List ℕ) {pre : List ℕ}
      → traverse m fuel stack out ≡ some pre
      → (w : List ℕ) × Walk m stack w × (pre ≡ out ++ w)
  unfolding traverse
  traverse-Walk fuel [] out h = ([], stop, ground (arith, append-nil out))
  traverse-Walk zero (k ∷ stack) out h = absurd (cc h)
  traverse-Walk (suc fuel) (k ∷ stack) out h =
      let (w, walk, e) = traverse-Walk fuel (kids_of m k ++ stack) (out ++ k ∷ []) h in
      let (u, v, hu, hv, e') = Walk-split (kids_of m k) stack walk in
      (
        k ∷ (u ++ v),
        visit k hu hv,
        e ∙ ap (◌++◌ (out ++ k ∷ [])) e' ∙ append_assoc out (k ∷ []) (u ++ v),
      )

  -- The tree under one of the roots is walked in fewer steps.
  pub Walk-member :
      {ks w : List ℕ} (k : ℕ)
      → Walk m ks w
      → 1 ≤ count k ks
      → (sub : List ℕ) × Walk m (kids_of m k) sub × (length sub < length w)
  Walk-member k stop h = absurd (omega arith)
  Walk-member k (visit j {sub = sub} {rest = rest} s r) h = elim (Bool-cases (nat_beq k j)) [
    | inl same ↦
        let e : j ≡ k = ground arith in
        (
          sub,
          subst (λ (i : ℕ). Walk m (kids_of m i) sub) e s,
          omega (arith, length-append {0} sub rest),
        )
    | inr other ↦
        let (u, walk, short) = Walk-member k r (ground arith) in
        (u, walk, omega (arith, length-append {0} sub rest))
  ]

-- The preorder of an index is the walk of its call tree from its roots.
pub preorder-Walk :
    (fuel : ℕ) (t : TraceJson) {index : TraceIndex}
    → build fuel t ≡ some index
    → Walk (index_children t) (index_roots t) index.preorder
preorder-Walk fuel t {index} h =
    let (_, visits) = built_of_build fuel t h in
    let (w, walk, e) = traverse-Walk (index_children t) fuel (index_roots t) [] visits in
    subst (Walk _ _) (sym e) walk
