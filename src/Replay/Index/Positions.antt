-- ===== src/Replay/Index/Positions.antt =====
-- The position maps of `TraceIndex`: a look-up by id finds the element that has the id.
use php_periscope.Common.{
  and_then, ℕ, zero, suc, ◌+◌, ◌≤◌, Option, some, List, [], ◌∷◌, map, ◌≡◌, refl, ◌⊎◌, inl, inr, ap,
  arith, nat_beq, nat_eq, get_elem?, count, Bool-cases, Option-cases, subst,
}
use php_periscope.Common.Maps.{Map, get, insert, get-insert}
use php_periscope.Replay.Index.{positions}

-- No two elements share a key.
abbrev pub HasDistinct {ℓ} : {A : Type ℓ} → (A → ℕ) → List A → Type 0
HasDistinct key xs = (a : ℕ) → count a (map key xs) ≤ 1

module _ {ℓ} {A : Type ℓ} (key : A → ℕ) where
  -- An element stands at a position, and has the key.
  abbrev pub Holds : List A → ℕ → ℕ → Type ℓ
  Holds xs k j = (x : A) × (get_elem? xs j ≡ some x) × (key x ≡ k)

  positions_sound :
      (i k p : ℕ) (xs : List A) (m : Map ℕ ℕ)
      → get (positions key i xs m) k ≡ some p
      → (get m k ≡ some p) ⊎ ((j : ℕ) × (p ≡ i + j) × Holds xs k j)
  unfolding positions
  positions_sound i k p [] m h = inl h
  positions_sound i k p (x ∷ xs) m h =
      elim (positions_sound (suc i) k p xs (insert (key x) i m) h) [
        | inl before ↦ elim (Bool-cases (nat_beq (key x) k)) [
          | inl same ↦ inr (0, ground (arith, get-insert (key x) k i m), (x, refl, ground arith))
          | inr other ↦ inl (ground (arith, get-insert (key x) k i m))
        ]
        | inr (j, e, held) ↦ inr (suc j, omega arith, held)
      ]

  -- A key that is bound, or that an element has, is bound afterwards.
  positions_kept :
      (i k : ℕ) (xs : List A) (m : Map ℕ ℕ)
      → (p : ℕ) × (get m k ≡ some p)
      → (p : ℕ) × (get (positions key i xs m) k ≡ some p)
  unfolding positions
  positions_kept i k [] m h = h
  positions_kept i k (x ∷ xs) m (p, h) =
      positions_kept (suc i) k xs (insert (key x) i m) (elim (Bool-cases (nat_beq (key x) k)) [
        | inl same ↦ (i, ground (arith, get-insert (key x) k i m))
        | inr other ↦ (p, ground (arith, get-insert (key x) k i m))
      ])

  pub positions_bound :
      (i k j : ℕ) (xs : List A) (m : Map ℕ ℕ)
      → Holds xs k j
      → (p : ℕ) × (get (positions key i xs m) k ≡ some p)
  unfolding positions
  positions_bound i k j [] m (y, e, h) = ground arith
  positions_bound i k zero (x ∷ xs) m (y, e, h) =
      positions_kept (suc i) k xs (insert (key x) i m) (i, ground (arith, get-insert (key x) k i m))
  positions_bound i k (suc j) (x ∷ xs) m held =
      positions_bound (suc i) k j xs (insert (key x) i m) held

  -- An element with a key counts among the keys.
  pub count_of_Holds : (xs : List A) (k j : ℕ) → Holds xs k j → 1 ≤ count k (map key xs)
  count_of_Holds [] k j (y, e, h) = ground arith
  count_of_Holds (x ∷ xs) k zero (y, e, h) = ground arith
  count_of_Holds (x ∷ xs) k (suc j) held = omega (arith, count_of_Holds xs k j held)

  pub Holds-of_count : (xs : List A) (k : ℕ) → 1 ≤ count k (map key xs) → (j : ℕ) × Holds xs k j
  Holds-of_count [] k h = absurd (omega arith)
  Holds-of_count (x ∷ xs) k h = elim (Bool-cases (nat_beq k (key x))) [
    | inl same ↦ (0, (x, refl, ground arith))
    | inr other ↦ let (j, held) = Holds-of_count xs k (ground arith) in (suc j, held)
  ]

  distinct_position :
      (xs : List A) (k i j : ℕ) → HasDistinct key xs → Holds xs k i → Holds xs k j → i ≡ j
  distinct_position [] k i j d (x, e, h) _ = ground arith
  distinct_position (x ∷ xs) k zero zero d a b = refl
  distinct_position (x ∷ xs) k zero (suc j) d (y, e, h) b =
      ground (arith, d k, count_of_Holds xs k j b)
  distinct_position (x ∷ xs) k (suc i) zero d a (y, e, h) =
      ground (arith, d k, count_of_Holds xs k i a)
  distinct_position (x ∷ xs) k (suc i) (suc j) d a b =
      ap suc (distinct_position xs k i j (λ c. ground (arith, d c)) a b)

  -- A position that the map gives for a key holds an element with the key.
  pub positions_held :
      (k p : ℕ) (xs : List A) → get (positions key 0 xs []) k ≡ some p → Holds xs k p
  unfolding get
  positions_held k p xs h = elim (positions_sound 0 k p xs [] h) [
    | inl before ↦ cc
    | inr (j, e, held) ↦ subst (Holds xs k) (omega arith) held
  ]

  abbrev pub find : List A → ℕ → Option A
  find xs k = and_then (get (positions key 0 xs []) k) (get_elem? xs)

  -- Whatever a look-up returns has the id, and is an element.
  pub find_sound :
      (xs : List A) (k : ℕ) {x : A}
      → find xs k ≡ some x
      → (j : ℕ) × (get_elem? xs j ≡ some x) × (key x ≡ k)
  find_sound xs k {x} h = elim (Option-cases (get (positions key 0 xs []) k)) [
    | inl missing ↦ absurd (cc (rw missing at h))
    | inr (p, at_p) ↦
        let (y, at_y, same) = positions_held k p xs at_p in
        let found : get_elem? xs p ≡ some x = rw at_p at h in (p, found, ground arith)
  ]

  -- An id that an element has is found.
  pub find_total : (xs : List A) (k : ℕ) → 1 ≤ count k (map key xs) → (x : A) × (find xs k ≡ some x)
  find_total xs k h =
      let (j, held) = Holds-of_count xs k h in
      let (p, at_p) = positions_bound 0 k j xs [] held in
      let (y, at_y, same) = positions_held k p xs at_p in (y, rw at_p at_y)

  -- With distinct ids the element at a position is the one found under its id.
  pub find_get :
      (xs : List A) (j : ℕ) (x : A)
      → HasDistinct key xs
      → get_elem? xs j ≡ some x
      → find xs (key x) ≡ some x
  find_get xs j x d h =
      let (p, at_p) = positions_bound 0 (key x) j xs [] (x, h, refl) in
      let eq : p ≡ j =
        distinct_position xs (key x) p j d (positions_held (key x) p xs at_p) (x, h, refl) in
      rw at_p (rw eq h)
