-- ===== src/Common/Results.antt =====
-- `Result<T, String>` and its `?`.
use Prim.Native.Nat.{ℕ, zero, suc}
use mathlib.Core.Path.{◌≡◌, refl}
use mathlib.Core.Logic.{◌⊎◌, inl, inr}
use native.Mathlib.Omega.{arith}
use mathlib.Core.List.{List, [], ◌∷◌, map}
use php_periscope.Common.Lists.{take, length}
use php_periscope.Common.Text.{Text}

pub data Result {ℓ} (A : Type ℓ) : Type ℓ where
  ok : A → Result A
  err : Text → Result A

infixl 5 ◌>>=◌
abbrev pub ◌>>=◌ {ℓ κ} : {A : Type ℓ} {B : Type κ} → Result A → (A → Result B) → Result B
ok a >>= f = f a
err e >>= f = err e

-- `iter().map(f).collect::<Result<Vec<_>, _>>()`
module _ {ℓ κ} {A : Type ℓ} {B : Type κ} where
  unfoldable pub collect : (A → Result B) → List A → Result (List B)
  collect f [] = ok []
  collect f (x ∷ xs) = do y ← f x; ys ← collect f xs; ok (y ∷ ys)

pub Result-cases {ℓ} :
    {A : Type ℓ} (r : Result A) → ((a : A) × (r ≡ ok a)) ⊎ ((e : Text) × (r ≡ err e))
Result-cases (ok a) = inl (a, refl)
Result-cases (err e) = inr (e, refl)

module _ {ℓ κ} {A : Type ℓ} {B : Type κ} where
  collect-cons :
      (f : A → Result B) (x : A) (xs : List A) (ys : List B)
      → collect f (x ∷ xs) ≡ ok ys
      → (y : B) × (rest : List B) × (f x ≡ ok y) × (collect f xs ≡ ok rest) × (y ∷ rest ≡ ys)
  unfolding collect
  collect-cons f x xs ys e = elim (Result-cases (f x)) [
    | inr (text, bad) ↦ absurd (cc (rw (collect, bad) at e))
    | inl (y, here) ↦ elim (Result-cases (collect f xs)) [
      | inr (text, bad) ↦ absurd (cc (rw (collect, here, bad) at e))
      | inl (rest, there) ↦ (y, rest, here, there, cc (rw (collect, here, there) at e))
    ]
  ]

  pub collect-length :
      (f : A → Result B) (xs : List A) (ys : List B) → collect f xs ≡ ok ys → length ys ≡ length xs
  unfolding collect
  collect-length f [] ys e = let gone : [] ≡ ys = cc e in rw (← gone) refl
  collect-length f (x ∷ xs) ys e =
      let (y, rest, here, there, whole) = collect-cons f x xs ys e in
      rw (← whole) (omega (arith, collect-length f xs rest there))

module _ {ℓ κ ι} {A : Type ℓ} {B : Type κ} {C : Type ι} where
  -- Two functions that succeed together, on a list and on a prefix of it.
  pub collect-take :
      (f : A → Result B) (g : A → Result C) (h : B → C)
      → ((x : A) (y : B) → f x ≡ ok y → g x ≡ ok (h y))
      → (n : ℕ) (xs : List A) (ys : List B) → collect f xs ≡ ok ys
      → collect g (take n xs) ≡ ok (map h (take n ys))
  unfolding collect
  collect-take f g h same zero xs ys e = refl
  collect-take f g h same (suc n) [] ys e = let gone : [] ≡ ys = cc e in rw (← gone) refl
  collect-take f g h same (suc n) (x ∷ xs) ys e =
      let (y, rest, here, there, whole) = collect-cons f x xs ys e in
      rw (← whole, same x y here, collect-take f g h same n xs rest there) refl

  pub collect-map :
      (f : A → Result B) (g : A → Result C) (h : B → C)
      → ((x : A) (y : B) → f x ≡ ok y → g x ≡ ok (h y))
      → (xs : List A) (ys : List B) → collect f xs ≡ ok ys
      → collect g xs ≡ ok (map h ys)
  unfolding collect
  collect-map f g h same [] ys e = let gone : [] ≡ ys = cc e in rw (← gone) refl
  collect-map f g h same (x ∷ xs) ys e =
      let (y, rest, here, there, whole) = collect-cons f x xs ys e in
      rw (← whole, same x y here, collect-map f g h same xs rest there) refl
