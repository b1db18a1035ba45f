-- ===== src/Common/Maps.antt =====
-- `HashMap`, `BTreeMap` and `HashSet` as association lists without repeated keys.
use mathlib.Core.Path.{◌≡◌, refl, subst, ◌∙◌}
use mathlib.Core.Logic.{inl, inr}
use mathlib.Core.Bool.{Bool, false, ◌&&◌}
use mathlib.Core.List.{List, [], ◌∷◌}
use mathlib.Core.Option.{Option, none, some}
use native.Mathlib.Omega.{arith}
use php_periscope.Common.Tests.{unwrap_or, Key, ◌==◌, if◌then◌else◌, Bool-cases}
use php_periscope.Common.Lists.{count_where}

abbrev pub Map {ℓ κ} : Type ℓ → Type κ → Type (ℓ ⊔ κ)
Map K V = List (K × V)

module _ {ℓ κ} {K : Type ℓ} {V : Type κ} ⦃key : Key K⦄ where
  -- `map.get(&k)`
  unfoldable pub get : Map K V → K → Option V
  get [] k = none
  get ((j, v) ∷ m) k = if j == k then some v else get m k

  -- `map.insert(k, v)`
  unfoldable pub insert : K → V → Map K V → Map K V
  insert k v [] = (k, v) ∷ []
  insert k v ((j, w) ∷ m) = if j == k then (j, v) ∷ m else (j, w) ∷ insert k v m

  -- `*map.entry(k).or_insert(d) = f(…)`
  unfoldable pub entry : K → V → (V → V) → Map K V → Map K V
  entry k d f [] = (k, f d) ∷ []
  entry k d f ((j, w) ∷ m) = if j == k then (j, f w) ∷ m else (j, w) ∷ entry k d f m

  pub get-insert :
      (k j : K) (v : V) (m : Map K V) → get (insert k v m) j ≡ (if k == j then some v else get m j)
  unfolding get insert
  get-insert k j v [] = refl
  get-insert k j v ((i, w) ∷ m) =
      ground (arith, key.same_iff k j, key.same_iff i k, key.same_iff i j, get-insert k j v m)

  pub get-entry :
      (k j : K) (d : V) (f : V → V) (m : Map K V)
      → get (entry k d f m) j ≡ (if k == j then some (f (unwrap_or (get m k) d)) else get m j)
  unfolding get entry
  get-entry k j d f [] = refl
  get-entry k j d f ((i, w) ∷ m) =
      ground (arith, key.same_iff k j, key.same_iff i k, key.same_iff i j, get-entry k j d f m)

  -- `map.remove(&k)`
  unfoldable pub remove : K → Map K V → Map K V
  remove k [] = []
  remove k ((j, v) ∷ m) = let rest = remove k m in if j == k then rest else (j, v) ∷ rest

  pub get-remove : (k j : K) (m : Map K V) → get (remove k m) j ≡ (if k == j then none else get m j)
  unfolding get remove
  get-remove k j [] = ground arith
  get-remove k j ((i, w) ∷ m) =
      ground (arith, key.same_iff k j, key.same_iff i k, key.same_iff i j, get-remove k j m)

module _ {ℓ κ} {K : Type ℓ} {V : Type κ} ⦃key : Key K⦄ where
  -- No key stands twice.
  abbrev pub HasUnique : Map K V → Type κ
  HasUnique [] = Unit
  HasUnique ((k, v) ∷ m) = (get m k ≡ none) × HasUnique m

  pub HasUnique-entry :
      (k : K) (d : V) (f : V → V) (m : Map K V) → HasUnique m → HasUnique (entry k d f m)
  unfolding entry get
  HasUnique-entry k d f [] h = (refl, tt)
  HasUnique-entry k d f ((j, w) ∷ m) (new, h) = elim (Bool-cases (j == k)) [
    | inl here ↦ rw here (new, h)
    | inr other ↦
        let apart : (k == j) ≡ false = ground (arith, key.same_iff k j, key.same_iff j k) in
        rw other (get-entry k j d f m ∙ rw apart new, HasUnique-entry k d f m h)
  ]

  -- How many entries have the key and a value that passes a test.
  pub count_where-get :
      (k : K) (r : V → Bool) (m : Map K V)
      → HasUnique m
      → count_where (λ (p : K × V). p.0 == k && r p.1) m
        ≡ elim (get m k) [ none ↦ 0 | some v ↦ if r v then 1 else 0 ]
  unfolding get
  count_where-get k r [] h = refl
  count_where-get k r ((j, w) ∷ m) (new, h) = elim (Bool-cases (j == k)) [
    | inl here ↦
        let gone : get m k ≡ none = subst (λ i. get m i ≡ none) ((key.same_iff j k).0 here) new in
        rw here (ground (arith, count_where-get k r m h, gone))
    | inr other ↦ rw other (ground (arith, count_where-get k r m h))
  ]
