-- ===== src/Common/Numbers.antt =====
-- Numbers as decimal text, and names taken apart at a character.
use Prim.Native.Nat.{ℕ, zero, suc, ◌+◌, ◌-◌, ◌*◌, ◌/◌, ◌%◌, ◌^◌, ◌≤◌, ◌<◌}
use mathlib.Core.Path.{◌≡◌, refl, sym, ap, ◌∙◌, subst}
use mathlib.Core.Logic.{inl, inr}
use mathlib.Core.Bool.{true, ◌&&◌}
use mathlib.Core.List.{[], ◌∷◌}
use mathlib.Core.Option.{Option, none, some}
use native.Mathlib.Omega.{arith}
use php_periscope.Common.Tests.{ltb, ltb_iff, leb, nat_beq, if◌then◌else◌, and_then, Bool-cases}
use php_periscope.Common.Lists.{All, length}
use php_periscope.Common.Text.{Text}

-- `Display` of an unsigned integer. A `u64` has at most 20 digits, so 20 rounds are enough.
unfoldable pub digits : ℕ → ℕ → Text → Text
digits zero n acc = acc
digits (suc fuel) n acc =
    let rest = digits fuel (n / 10) ((b'0' + n % 10) ∷ acc) in
    if ltb n 10 then (b'0' + n) ∷ acc else rest

unfoldable pub show_nat : ℕ → Text
unfolding digits
show_nat n = digits 20 n []

unfoldable pub digit_of : ℕ → Option ℕ
digit_of c = if leb b'0' c && leb c b'9' then some (c - b'0') else none

-- The digits of a `u64` after the ones read so far: `none` on another character or an overflow.
unfoldable pub parse_digits : ℕ → Text → Option ℕ
parse_digits acc [] = some acc
parse_digits acc (c ∷ s) = and_then (digit_of c) (λ d.
    let next = acc * 10 + d in
    let rest = parse_digits next s in if ltb next (2 ^ 64) then rest else none)

-- `str::parse::<u64>`
unfoldable pub parse_u64 : Text → Option ℕ
parse_u64 [] = none
parse_u64 (c ∷ []) = parse_digits 0 (c ∷ [])
parse_u64 (c ∷ d ∷ s) =
    if nat_beq c b'+' then parse_digits 0 (d ∷ s) else parse_digits 0 (c ∷ d ∷ s)

-- What stands before and after the first occurrence of a character, and the last one.
unfoldable pub split_once : ℕ → Text → Option (Text × Text)
split_once d [] = none
split_once d (c ∷ s) =
    let rest = split_once d s in
    if nat_beq c d then some ([], s) else and_then rest (λ parts. some (c ∷ parts.0, parts.1))

unfoldable pub rsplit_once : ℕ → Text → Option (Text × Text)
rsplit_once d [] = none
rsplit_once d (c ∷ s) = elim (rsplit_once d s) [
  | some parts ↦ some (c ∷ parts.0, parts.1)
  | none ↦ if nat_beq c d then some ([], s) else none
]

-- No character of a printed number is outside the digits.
abbrev pub IsDigit : ℕ → Type 0
IsDigit c = (b'0' ≤ c) × (c ≤ b'9')

digits-IsDigit : (fuel n : ℕ) (acc : Text) → All IsDigit acc → All IsDigit (digits fuel n acc)
unfolding digits
digits-IsDigit zero n acc h = h
digits-IsDigit (suc fuel) n acc h = elim (Bool-cases (ltb n 10)) [
  | inl last ↦ rw last ((omega arith, ground arith), h)
  | inr more ↦
      rw more (digits-IsDigit fuel (n / 10) ((b'0' + n % 10) ∷ acc) ((omega arith, omega arith), h))
]

pub show_nat-IsDigit : (n : ℕ) → All IsDigit (show_nat n)
unfolding show_nat
show_nat-IsDigit n = digits-IsDigit 20 n [] tt

abbrev pow10 : ℕ → ℕ
pow10 zero = 1
pow10 (suc n) = 10 * pow10 n

parse_digit_lem :
    (d v : ℕ) (acc : Text)
    → d < 10
    → v * 10 + d < 2 ^ 64
    → parse_digits v ((b'0' + d) ∷ acc) ≡ parse_digits (v * 10 + d) acc
unfolding parse_digits digit_of
parse_digit_lem d v acc small fits =
    let is_digit : (leb b'0' (b'0' + d) && leb (b'0' + d) b'9') ≡ true = ground arith in
    let value : b'0' + d - b'0' ≡ d = omega arith in
    rw (is_digit, value, (ltb_iff (v * 10 + d) (2 ^ 64)).1 fits) refl

-- The digits that are printed are read as the number.
parse_digits-digits :
    (fuel n : ℕ) (acc : Text)
    → n < pow10 fuel
    → n < 2 ^ 64
    → parse_digits 0 (digits fuel n acc) ≡ parse_digits n acc
unfolding digits
parse_digits-digits zero n acc below fits = ap (λ m. parse_digits m acc) (omega arith)
parse_digits-digits (suc fuel) n acc below fits = elim (Bool-cases (ltb n 10)) [
  | inl last ↦ rw last (
      parse_digit_lem n 0 acc (ground (arith, last)) (omega arith)
      ∙ ap (λ m. parse_digits m acc) (omega arith))
  | inr more ↦ rw more (
      parse_digits-digits fuel (n / 10) ((b'0' + n % 10) ∷ acc) (omega arith) (omega arith)
      ∙ parse_digit_lem (n % 10) (n / 10) acc (omega arith) (omega arith)
      ∙ ap (λ m. parse_digits m acc) (omega arith))
]

digits-cons : (fuel n c : ℕ) (acc : Text) → (d : ℕ) × (s : Text) × (digits fuel n (c ∷ acc) ≡ d ∷ s)
unfolding digits
digits-cons zero n c acc = (c, acc, refl)
digits-cons (suc fuel) n c acc = elim (Bool-cases (ltb n 10)) [
  | inl last ↦ (b'0' + n, c ∷ acc, rw last refl)
  | inr more ↦ rw more (digits-cons fuel (n / 10) (b'0' + n % 10) (c ∷ acc))
]

parse_u64-digits : (c : ℕ) (s : Text) → IsDigit c → parse_u64 (c ∷ s) ≡ parse_digits 0 (c ∷ s)
unfolding parse_u64
parse_u64-digits c [] h = refl
parse_u64-digits c (d ∷ s) (low, high) = ground arith

show_nat-cons : (n : ℕ) → (d : ℕ) × (s : Text) × (show_nat n ≡ d ∷ s)
unfolding show_nat digits
show_nat-cons n = elim (Bool-cases (ltb n 10)) [
  | inl last ↦ (b'0' + n, [], rw (digits, last) refl)
  | inr more ↦ rw (show_nat, digits, more) (digits-cons 19 (n / 10) (b'0' + n % 10) [])
]

-- A machine number that is printed is parsed as itself.
pub parse_u64-show_nat : (n : ℕ) → n < 2 ^ 64 → parse_u64 (show_nat n) ≡ some n
unfolding show_nat parse_digits
parse_u64-show_nat n fits =
    let (d, s, whole) = show_nat-cons n in
    let (is_digit, _) = subst (All IsDigit) whole (show_nat-IsDigit n) in
    ap parse_u64 whole
    ∙ parse_u64-digits d s is_digit
    ∙ ap (parse_digits 0) (sym whole)
    ∙ parse_digits-digits 20 n [] (omega arith) fits

length-digits : (fuel n : ℕ) (acc : Text) → length (digits fuel n acc) ≤ fuel + length acc
unfolding digits
length-digits zero n acc = omega arith
length-digits (suc fuel) n acc = ground (arith, length-digits fuel (n / 10) ((b'0' + n % 10) ∷ acc))

pub length-show_nat : (n : ℕ) → length (show_nat n) ≤ 20
unfolding show_nat
length-show_nat n = omega (arith, length-digits 20 n [])
