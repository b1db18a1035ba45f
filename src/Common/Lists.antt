-- ===== src/Common/Lists.antt =====
-- Lists measured, indexed and counted by native numbers.
use Prim.Native.Nat.{ℕ, zero, suc, ◌+◌, ◌≤◌, ◌<◌}
use mathlib.Core.Path.{◌≡◌, refl, subst, ap, ◌∙◌}
use mathlib.Core.Logic.{inl, inr}
use mathlib.Core.Bool.{Bool}
use mathlib.Core.List.{List, [], ◌∷◌, ◌++◌}
use mathlib.Core.Option.{Option, none, some}
use native.Mathlib.Omega.{arith}
use php_periscope.Common.Tests.{Bool-cases, if◌then◌else◌, nat_beq}

module _ {ℓ} {A : Type ℓ} where
  abbrev pub length : List A → ℕ
  length [] = 0
  length (x ∷ xs) = suc (length xs)

  abbrev pub get_elem? : List A → ℕ → Option A
  get_elem? [] i = none
  get_elem? (x ∷ xs) zero = some x
  get_elem? (x ∷ xs) (suc i) = get_elem? xs i

  abbrev pub take : ℕ → List A → List A
  take zero xs = []
  take (suc n) [] = []
  take (suc n) (x ∷ xs) = x ∷ take n xs

  abbrev pub drop : ℕ → List A → List A
  drop zero xs = xs
  drop (suc n) [] = []
  drop (suc n) (x ∷ xs) = drop n xs

  -- `Iterator::filter` and `Vec::retain`, over a Boolean test.
  unfoldable pub retain : (A → Bool) → List A → List A
  retain p [] = []
  retain p (x ∷ xs) = let rest = retain p xs in if p x then x ∷ rest else rest

  -- How many elements pass a test.
  abbrev pub count_where : (A → Bool) → List A → ℕ
  count_where p [] = 0
  count_where p (x ∷ xs) = (if p x then 1 else 0) + count_where p xs

  abbrev pub All {κ} : (A → Type κ) → List A → Type κ
  All P [] = Unit
  All P (x ∷ xs) = P x × All P xs

module _ {ℓ} {A : Type ℓ} where
  pub length-append : (xs ys : List A) → length (xs ++ ys) ≡ length xs + length ys
  length-append [] ys = omega arith
  length-append (x ∷ xs) ys = omega (arith, length-append xs ys)

  pub count_where-append :
      (p : A → Bool) (xs ys : List A)
      → count_where p (xs ++ ys) ≡ count_where p xs + count_where p ys
  count_where-append p [] ys = omega arith
  count_where-append p (x ∷ xs) ys = omega (arith, count_where-append p xs ys)

  pub count_where-le-length : (p : A → Bool) (xs : List A) → count_where p xs ≤ length xs
  count_where-le-length p [] = omega arith
  count_where-le-length p (x ∷ xs) = ground (arith, count_where-le-length p xs)

  pub All-append {κ} : (P : A → Type κ) (xs ys : List A) → All P xs → All P ys → All P (xs ++ ys)
  All-append P [] ys h k = k
  All-append P (x ∷ xs) ys (p, h) k = (p, All-append P xs ys h k)

  pub All-get {κ} :
      (P : A → Type κ) (xs : List A) (i : ℕ) {x : A} → All P xs → get_elem? xs i ≡ some x → P x
  All-get P [] i h e = absurd (cc e)
  All-get P (y ∷ ys) zero (p, h) e = subst P (cc) p
  All-get P (y ∷ ys) (suc i) (p, h) e = All-get P ys i h e

  pub All-split {κ} : (P : A → Type κ) (xs ys : List A) → All P (xs ++ ys) → All P xs × All P ys
  All-split P [] ys h = (tt, h)
  All-split P (x ∷ xs) ys (p, h) = let (l, r) = All-split P xs ys h in ((p, l), r)

  pub drop-length : (xs ys : List A) (x : A) → drop (suc (length xs)) (xs ++ x ∷ ys) ≡ ys
  drop-length [] ys x = refl
  drop-length (z ∷ xs) ys x = drop-length xs ys x

  pub All-map {κ ι} :
      (P : A → Type κ) (Q : A → Type ι) (f : (x : A) → P x → Q x) (xs : List A)
      → All P xs
      → All Q xs
  All-map P Q f [] h = tt
  All-map P Q f (x ∷ xs) (p, h) = (f x p, All-map P Q f xs h)

  pub get_elem?_append : (xs ys : List A) (y : A) → get_elem? (xs ++ y ∷ ys) (length xs) ≡ some y
  get_elem?_append [] ys y = refl
  get_elem?_append (x ∷ xs) ys y = get_elem?_append xs ys y

  pub lt-length_of_get_elem? :
      (xs : List A) (i : ℕ) {a : A} → get_elem? xs i ≡ some a → i < length xs
  lt-length_of_get_elem? [] i h = ground arith
  lt-length_of_get_elem? (x ∷ xs) zero h = omega arith
  lt-length_of_get_elem? (x ∷ xs) (suc i) h = omega (arith, lt-length_of_get_elem? xs i h)

  pub get_elem?_of_lt : (xs : List A) (i : ℕ) → i < length xs → (a : A) × (get_elem? xs i ≡ some a)
  get_elem?_of_lt [] i h = absurd (omega arith)
  get_elem?_of_lt (x ∷ xs) zero h = (x, refl)
  get_elem?_of_lt (x ∷ xs) (suc i) h = get_elem?_of_lt xs i (omega arith)

-- Occurrences of a number in a list of numbers.
abbrev pub count : ℕ → List ℕ → ℕ
count a = count_where (nat_beq a)

pub count-append : (a : ℕ) (xs ys : List ℕ) → count a (xs ++ ys) ≡ count a xs + count a ys
count-append a = count_where-append (nat_beq a)

-- A list without the first occurrence of a number.
erase : ℕ → List ℕ → List ℕ
erase a [] = []
erase a (x ∷ xs) = let rest = x ∷ erase a xs in if nat_beq a x then xs else rest

count-erase :
    (a b : ℕ) (xs : List ℕ)
    → 1 ≤ count a xs
    → count b (erase a xs) + (if nat_beq b a then 1 else 0) ≡ count b xs
unfolding erase
count-erase a b [] h = absurd (omega arith)
count-erase a b (x ∷ xs) h = ground (arith, count-erase a b xs)

length-erase : (a : ℕ) (xs : List ℕ) → 1 ≤ count a xs → length (erase a xs) + 1 ≡ length xs
unfolding erase
length-erase a [] h = absurd (omega arith)
length-erase a (x ∷ xs) h = ground (arith, length-erase a xs)

-- A list that holds nothing more often than another is no longer than it.
pub length-le_of_count :
    (xs ys : List ℕ) → ((a : ℕ) → count a xs ≤ count a ys) → length xs ≤ length ys
length-le_of_count [] ys h = omega arith
length-le_of_count (x ∷ xs) ys h =
    let here : 1 ≤ count x ys = ground (arith, h x) in
    let shorter =
      length-le_of_count xs (erase x ys) (λ a. ground (arith, h a, count-erase x a ys)) in
    omega (arith, shorter, length-erase x ys here)

-- A predicate that the members satisfy, from and to counts.
pub All-of_count {ℓ} : (P : ℕ → Type ℓ) (xs : List ℕ) → ((x : ℕ) → 1 ≤ count x xs → P x) → All P xs
All-of_count P [] h = tt
All-of_count P (x ∷ xs) h = (h x (ground arith), All-of_count P xs (λ y c. h y (ground arith)))

pub of_All_of_count {ℓ} : (P : ℕ → Type ℓ) (xs : List ℕ) (x : ℕ) → All P xs → 1 ≤ count x xs → P x
of_All_of_count P [] x h c = absurd (omega arith)
of_All_of_count P (y ∷ ys) x (p, h) c = elim (Bool-cases (nat_beq x y)) [
  | inl same ↦ subst P (ground arith) p
  | inr other ↦ of_All_of_count P ys x h (ground arith)
]

pub All-of_get {ℓ κ} :
    {A : Type ℓ} (P : A → Type κ) (xs : List A)
    → ((j : ℕ) (x : A) → get_elem? xs j ≡ some x → P x)
    → All P xs
All-of_get P [] h = tt
All-of_get P (x ∷ xs) h = (h 0 x refl, All-of_get P xs (λ j y e. h (suc j) y e))

pub get_elem?-drop {ℓ} :
    {A : Type ℓ} (k j : ℕ) (xs : List A) → get_elem? (drop k xs) j ≡ get_elem? xs (k + j)
get_elem?-drop zero j xs = ap (get_elem? xs) (omega arith)
get_elem?-drop (suc k) j [] = refl
get_elem?-drop (suc k) j (x ∷ xs) =
    get_elem?-drop k j xs ∙ ap (get_elem? (x ∷ xs)) (λ i. suc_add k j i)
  where
    suc_add : (k j : ℕ) → suc (k + j) ≡ suc k + j
    suc_add k j = omega arith

pub get_elem?_of_ge {ℓ} : {A : Type ℓ} (xs : List A) (i : ℕ) → length xs ≤ i → get_elem? xs i ≡ none
get_elem?_of_ge [] i h = refl
get_elem?_of_ge (x ∷ xs) zero h = absurd (omega arith)
get_elem?_of_ge (x ∷ xs) (suc i) h = get_elem?_of_ge xs i (omega arith)

pub count_of_get_elem? : (xs : List ℕ) (i : ℕ) {a : ℕ} → get_elem? xs i ≡ some a → 1 ≤ count a xs
count_of_get_elem? [] i h = absurd (cc h)
count_of_get_elem? (x ∷ xs) zero h = ground arith
count_of_get_elem? (x ∷ xs) (suc i) h = omega (arith, count_of_get_elem? xs i h)
