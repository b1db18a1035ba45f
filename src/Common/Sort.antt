-- ===== src/Common/Sort.antt =====
-- The stable `sort_by` and `sort_by_key` of slices, as an insertion sort: the list that a stable
-- sort by a total preorder returns is determined, so any algorithm gives this one.
use Prim.Native.Nat.{ℕ, suc, ◌+◌}
use mathlib.Core.Path.{◌≡◌, refl, ◌∙◌}
use mathlib.Core.Logic.{◌⊎◌, inl, inr}
use mathlib.Core.Bool.{Bool, true}
use mathlib.Core.List.{List, [], ◌∷◌}
use native.Mathlib.Omega.{arith}
use php_periscope.Common.Tests.{leb, if◌then◌else◌, Bool-cases}
use php_periscope.Common.Lists.{length, count_where, retain, All, All-map}

-- Each element may stand before all that follow it.
abbrev pub IsSorted {ℓ} : {A : Type ℓ} → (A → A → Bool) → List A → Type 0
IsSorted le [] = Unit
IsSorted le (x ∷ xs) = All (λ y. le x y ≡ true) xs × IsSorted le xs

module _ {ℓ} {A : Type ℓ} (le : A → A → Bool) where
  unfoldable pub place : A → List A → List A
  place x [] = x ∷ []
  place x (y ∷ ys) = let rest = y ∷ place x ys in if le x y then x ∷ y ∷ ys else rest

  unfoldable pub sort_by : List A → List A
  unfolding place
  sort_by [] = []
  sort_by (x ∷ xs) = place x (sort_by xs)

  count_where-place :
      (p : A → Bool) (x : A) (ys : List A)
      → count_where p (place x ys) ≡ (if p x then 1 else 0) + count_where p ys
  unfolding place
  count_where-place p x [] = refl
  count_where-place p x (y ∷ ys) = ground (arith, count_where-place p x ys)

  -- Sorting neither adds nor loses elements.
  pub count_where-sort_by :
      (p : A → Bool) (xs : List A) → count_where p (sort_by xs) ≡ count_where p xs
  unfolding sort_by
  count_where-sort_by p [] = refl
  count_where-sort_by p (x ∷ xs) =
      ground (arith, count_where-place p x (sort_by xs), count_where-sort_by p xs)

  length-place : (x : A) (ys : List A) → length (place x ys) ≡ suc (length ys)
  unfolding place
  length-place x [] = refl
  length-place x (y ∷ ys) = ground (arith, length-place x ys)

  pub length-sort_by : (xs : List A) → length (sort_by xs) ≡ length xs
  unfolding sort_by
  length-sort_by [] = refl
  length-sort_by (x ∷ xs) = omega (arith, length-place x (sort_by xs), length-sort_by xs)

  All-place {κ} : (P : A → Type κ) (x : A) (ys : List A) → P x → All P ys → All P (place x ys)
  unfolding place
  All-place P x [] p h = (p, tt)
  All-place P x (y ∷ ys) p (q, h) = elim (Bool-cases (le x y)) [
    | inl before ↦ rw before (p, (q, h))
    | inr after ↦ rw after (q, All-place P x ys p h)
  ]

  pub All-sort_by {κ} : (P : A → Type κ) (xs : List A) → All P xs → All P (sort_by xs)
  unfolding sort_by
  All-sort_by P [] h = tt
  All-sort_by P (x ∷ xs) (p, h) = All-place P x (sort_by xs) p (All-sort_by P xs h)

  module _ (total : (x y : A) → (le x y ≡ true) ⊎ (le y x ≡ true))
      (trans : (x y z : A) → le x y ≡ true → le y z ≡ true → le x z ≡ true) where
    IsSorted-place : (x : A) (ys : List A) → IsSorted le ys → IsSorted le (place x ys)
    unfolding place
    IsSorted-place x [] h = (tt, tt)
    IsSorted-place x (y ∷ ys) (h, s) = elim (Bool-cases (le x y)) [
      | inl before ↦ rw before ((before, All-map _ _ (λ z. trans x y z before) ys h), (h, s))
      | inr after ↦
          rw after (
            All-place _ x ys (elim (total x y) [ inl c ↦ cc | inr c ↦ c ]) h,
            IsSorted-place x ys s,
          )
    ]

    pub IsSorted-sort_by : (xs : List A) → IsSorted le (sort_by xs)
    unfolding sort_by
    IsSorted-sort_by [] = tt
    IsSorted-sort_by (x ∷ xs) = IsSorted-place x (sort_by xs) (IsSorted-sort_by xs)

  -- Elements that may stand in either order keep the order that they had.
  module _ (p : A → Bool) (tied : (x y : A) → p x ≡ true → p y ≡ true → le x y ≡ true) where
    retain-place :
        (x : A) (ys : List A)
        → retain p (place x ys) ≡ (if p x then x ∷ retain p ys else retain p ys)
    unfolding place retain
    retain-place x [] = refl
    retain-place x (y ∷ ys) = ground (arith, tied x y, retain-place x ys)

    pub retain-sort_by : (xs : List A) → retain p (sort_by xs) ≡ retain p xs
    unfolding sort_by retain
    retain-sort_by [] = refl
    retain-sort_by (x ∷ xs) = retain-place x (sort_by xs) ∙ ground (arith, retain-sort_by xs)

-- `sort_by_key`
abbrev pub by_key {ℓ} : {A : Type ℓ} → (A → ℕ) → A → A → Bool
by_key key x y = leb (key x) (key y)

abbrev pub sort_by_key {ℓ} : {A : Type ℓ} → (A → ℕ) → List A → List A
sort_by_key key = sort_by (by_key key)

pub IsSorted-sort_by_key {ℓ} :
    {A : Type ℓ} (key : A → ℕ) (xs : List A) → IsSorted (by_key key) (sort_by_key key xs)
IsSorted-sort_by_key key =
    IsSorted-sort_by (by_key key) (λ x y. ground arith) (λ x y z h k. ground arith)
