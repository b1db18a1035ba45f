-- ===== src/Replay/Index/Traverse.antt =====
-- The traversal of `TraceIndex::build`, over any map of children: what it visits, and when it ends.
use php_periscope.Common.{
  ℕ, zero, suc, ◌+◌, ◌≤◌, some, List, [], ◌∷◌, ◌++◌, ◌≡◌, refl, arith, length, count, count-append,
  length-append, length-le_of_count,
}
use php_periscope.Common.Maps.{Map}
use php_periscope.Replay.Index.{kids_of, traverse}

-- How often `x` is a child of a member of `ps`.
abbrev pub gained : Map ℕ (List ℕ) → ℕ → List ℕ → ℕ
gained children x [] = 0
gained children x (p ∷ ps) = count x (kids_of children p) + gained children x ps

gained_concat :
    (children : Map ℕ (List ℕ)) (x p : ℕ) (ps : List ℕ)
    → gained children x (ps ++ p ∷ []) ≡ gained children x ps + count x (kids_of children p)
gained_concat children x p [] = omega arith
gained_concat children x p (q ∷ ps) = omega (arith, gained_concat children x p ps)

-- The roots and the children of any frames are, together, frames, each at most once.
abbrev pub IsForest : Map ℕ (List ℕ) → List ℕ → List ℕ → Type 0
IsForest children roots ids =
    (ps : List ℕ)
    → ((x : ℕ) → count x ps ≤ 1)
    → (x : ℕ) → count x roots + gained children x ps ≤ count x ids

module _ (children : Map ℕ (List ℕ)) (roots : List ℕ) where
  -- What has been visited or waits: the roots, and the children of what has been visited.
  abbrev Balanced : List ℕ → List ℕ → Type 0
  Balanced stack out = (x : ℕ) → count x out + count x stack ≡ count x roots + gained children x out

  Balanced-step :
      (id : ℕ) (stack out : List ℕ)
      → Balanced (id ∷ stack) out
      → Balanced (kids_of children id ++ stack) (out ++ id ∷ [])
  Balanced-step id stack out b x = omega (
    arith,
    b x,
    gained_concat children x id out,
    count-append x out (id ∷ []),
    count-append x (kids_of children id) stack,
  )

  traverse-Balanced :
      (fuel : ℕ) (stack out : List ℕ) {pre : List ℕ}
      → Balanced stack out
      → traverse children fuel stack out ≡ some pre
      → (x : ℕ) → count x pre ≡ count x roots + gained children x pre
  unfolding traverse
  traverse-Balanced fuel [] out b h x = ground (arith, b x)
  traverse-Balanced zero (id ∷ stack) out b h x = ground arith
  traverse-Balanced (suc fuel) (id ∷ stack) out b h x =
      traverse-Balanced fuel _ _ (Balanced-step id stack out b) h x

  -- Every finished traversal lists the roots and, for each frame listed, its children.
  pub traverse_closed :
      (fuel : ℕ) {pre : List ℕ}
      → traverse children fuel roots [] ≡ some pre
      → (x : ℕ) → count x pre ≡ count x roots + gained children x pre
  traverse_closed fuel h = traverse-Balanced fuel roots [] (λ x. omega arith) h

  module _ (ids : List ℕ) (distinct : (x : ℕ) → count x ids ≤ 1)
      (forest : IsForest children roots ids) where
    abbrev Bounded : List ℕ → List ℕ → Type 0
    Bounded stack out = (x : ℕ) → count x out + count x stack ≤ count x ids

    visited_once :
        (id : ℕ) (stack out : List ℕ)
        → Bounded (id ∷ stack) out
        → (x : ℕ) → count x (out ++ id ∷ []) ≤ count x ids
    visited_once id stack out b x = omega (arith, b x, count-append x out (id ∷ []))

    Bounded-step :
        (id : ℕ) (stack out : List ℕ)
        → Balanced (id ∷ stack) out
        → Bounded (id ∷ stack) out
        → Bounded (kids_of children id ++ stack) (out ++ id ∷ [])
    Bounded-step id stack out bal b x =
        let once = λ (y : ℕ). visited_once id stack out b y in
        omega (
          arith,
          Balanced-step id stack out bal x,
          forest (out ++ id ∷ []) (λ y. omega (arith, once y, distinct y)) x,
        )

    traverse_ends :
        (fuel : ℕ) (stack out : List ℕ)
        → Balanced stack out
        → Bounded stack out
        → length ids ≤ fuel + length out
        → (pre : List ℕ) × (traverse children fuel stack out ≡ some pre)
          × ((x : ℕ) → count x pre ≤ count x ids)
    unfolding traverse
    traverse_ends fuel [] out bal b h = (out, refl, λ x. omega (arith, b x))
    traverse_ends zero (id ∷ stack) out bal b h = absurd (
        omega (
          arith,
          length-append out (id ∷ []),
          length-le_of_count (out ++ id ∷ []) ids (visited_once id stack out b),
        ))
    traverse_ends (suc fuel) (id ∷ stack) out bal b h =
        traverse_ends fuel _ _ (Balanced-step id stack out bal) (Bounded-step id stack out bal b)
          (omega (arith, length-append out (id ∷ [])))

    -- The traversal pops no more often than there are frames, and lists none twice.
    pub traverse_total :
        (fuel : ℕ)
        → length ids ≤ fuel
        → (pre : List ℕ) × (traverse children fuel roots [] ≡ some pre)
          × ((x : ℕ) → count x pre ≤ count x ids)
    traverse_total fuel h =
        traverse_ends fuel roots [] (λ x. omega arith)
          (λ x. omega (arith, forest [] (λ y. omega arith) x)) (omega arith)
