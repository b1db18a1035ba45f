-- ===== src/Filter/Split.antt =====
-- daemon/src/event_filter.rs: `split_top_level_and` against the texts that it takes apart.
use php_periscope.Common.{
  ℕ, zero, suc, List, [], ◌∷◌, ◌++◌, Bool, true, false, not, ◌&&◌, ◌||◌, ◌≡◌, refl, sym, ap, ◌∙◌,
  arith, All, if◌then◌else◌, nat_beq, reverse, Bool-cases, inl, inr,
}
use mathlib.Core.List.{reverse_aux, reverse-reverse, append-nil}
use php_periscope.Common.Text.{Text, codes}
use php_periscope.Common.Results.{Result, ok, err}
use php_periscope.Filter.{quote, is_blank, is_separator, add_part, split_loop, split_top_level_and}

abbrev pub is_a : ℕ → Bool
is_a c = nat_beq c b'A' || nat_beq c b'a'

abbrev pub starts_with_a : Text → Bool
starts_with_a [] = true
starts_with_a (c ∷ s) = is_a c

-- From inside or outside quotes, the text closes all its quotes, and outside them no blank is
-- followed by an A or stands at the end: no separator can begin in it.
abbrev pub Whole : Bool → Text → Type 0
Whole in_quote [] = in_quote ≡ false
Whole in_quote (c ∷ s) =
    if nat_beq c quote
    then Whole (not in_quote) s
    else ((in_quote || not (is_blank c && starts_with_a s)) ≡ true) × Whole in_quote s

is_separator-blank : (c : ℕ) (s : Text) → is_blank c ≡ false → is_separator (c ∷ s) ≡ false
unfolding is_separator
is_separator-blank c (w1 ∷ w2 ∷ w3 ∷ w4 ∷ s) h = rw h refl
is_separator-blank c (w1 ∷ w2 ∷ w3 ∷ []) h = refl
is_separator-blank c (w1 ∷ w2 ∷ []) h = refl
is_separator-blank c (w1 ∷ []) h = refl
is_separator-blank c [] h = refl

is_separator-next : (c d : ℕ) (s : Text) → is_a d ≡ false → is_separator (c ∷ d ∷ s) ≡ false
unfolding is_separator
is_separator-next c d (w2 ∷ w3 ∷ w4 ∷ s) h = ground (arith, Bool-cases (is_blank c))
is_separator-next c d (w2 ∷ w3 ∷ []) h = refl
is_separator-next c d (w2 ∷ []) h = refl
is_separator-next c d [] h = refl

-- A character outside quotes that begins no separator.
is_separator-Whole :
    (c : ℕ) (s rest : Text)
    → not (is_blank c && starts_with_a s) ≡ true
    → is_separator (c ∷ s ++ rest) ≡ false
is_separator-Whole c [] rest h = is_separator-blank c rest (ground arith)
is_separator-Whole c (d ∷ s) rest h = elim (Bool-cases (is_blank c)) [
  | inl blank ↦ is_separator-next c d (s ++ rest) (ground arith)
  | inr other ↦ is_separator-blank c (d ∷ s ++ rest) other
]

split_loop-Whole :
    (in_quote : Bool) (part seen rest : Text)
    → Whole in_quote part
    → split_loop 0 in_quote seen (part ++ rest) ≡ split_loop 0 false (reverse_aux part seen) rest
unfolding split_loop
split_loop-Whole in_quote [] seen rest h = ap (λ q. split_loop 0 q seen rest) h
split_loop-Whole in_quote (c ∷ part) seen rest h = elim (Bool-cases (nat_beq c quote)) [
  | inl toggles ↦
      let closed : Whole (not in_quote) part = rw toggles at h in
      rw toggles (split_loop-Whole (not in_quote) part (c ∷ seen) rest closed)
  | inr other ↦
      let (mild, closed) : ((in_quote || not (is_blank c && starts_with_a part)) ≡ true)
          × Whole in_quote part =
        rw other at h in
      let none_here : (not in_quote && is_separator (c ∷ part ++ rest)) ≡ false =
        ground (arith, is_separator-Whole c part rest, Bool-cases in_quote) in
      rw (other, none_here) (split_loop-Whole in_quote part (c ∷ seen) rest closed)
]

-- The parts with a separator between them.
abbrev pub joined : Text → List Text → Text
joined part [] = part
joined part (next ∷ parts) = part ++ (codes " AND " ++ joined next parts)

-- `split_top_level_and` takes a text apart at its separators: when each part closes its quotes
-- and outside them has no blank at its end or before an A, splitting the parts joined by " AND "
-- gives back the parts. A separator inside quotes is not one.
pub split_top_level_and_lem :
    (part : Text) (parts : List Text)
    → Whole false part
    → All (Whole false) parts
    → split_top_level_and (joined part parts) ≡ ok (part ∷ parts)
unfolding split_top_level_and split_loop is_separator
split_top_level_and_lem part [] h hs =
    ap (split_loop 0 false []) (sym (append-nil part))
    ∙ split_loop-Whole false part [] [] h
    ∙ ap (λ t. ok (t ∷ [])) (reverse-reverse part)
split_top_level_and_lem part (next ∷ parts) h (k, hs) =
    split_loop-Whole false part [] (codes " AND " ++ joined next parts) h
    ∙ ap (add_part (reverse (reverse part))) (split_top_level_and_lem next parts k hs)
    ∙ ap (λ t. ok (t ∷ next ∷ parts)) (reverse-reverse part)

-- Whether a quote is left open at the end of the text.
abbrev pub leaves_open : Bool → Text → Bool
leaves_open in_quote [] = in_quote
leaves_open in_quote (c ∷ s) =
    let closed = leaves_open (not in_quote) s in
    let kept = leaves_open in_quote s in if nat_beq c quote then closed else kept

abbrev pub is_refused {ℓ} : {A : Type ℓ} → Result A → Bool
is_refused (ok a) = false
is_refused (err e) = true

-- None of the characters that are still to be passed is a quote.
abbrev Passes : ℕ → Text → Type 0
Passes zero s = Unit
Passes (suc skip) [] = Unit
Passes (suc skip) (c ∷ s) = (nat_beq c quote ≡ false) × Passes skip s

is_separator-Passes : (c : ℕ) (s : Text) → is_separator (c ∷ s) ≡ true → Passes 4 s
unfolding is_separator is_blank
is_separator-Passes c (w1 ∷ w2 ∷ w3 ∷ w4 ∷ s) h = ground arith
is_separator-Passes c (w1 ∷ w2 ∷ w3 ∷ []) h = absurd (cc h)
is_separator-Passes c (w1 ∷ w2 ∷ []) h = absurd (cc h)
is_separator-Passes c (w1 ∷ []) h = absurd (cc h)
is_separator-Passes c [] h = tt

is_refused-add_part :
    (part : Text) (rest : Result (List Text)) → is_refused (add_part part rest) ≡ is_refused rest
is_refused-add_part part (ok parts) = refl
is_refused-add_part part (err e) = refl

is_refused-split_loop :
    (skip : ℕ) (in_quote : Bool) (part s : Text)
    → Passes skip s
    → is_refused (split_loop skip in_quote part s) ≡ leaves_open in_quote s
unfolding split_loop
is_refused-split_loop zero in_quote part [] h = ground arith
is_refused-split_loop (suc skip) in_quote part [] h = ground arith
is_refused-split_loop (suc skip) in_quote part (c ∷ s) (other, h) =
    rw other (is_refused-split_loop skip in_quote part s h)
is_refused-split_loop zero in_quote part (c ∷ s) h = elim (Bool-cases (nat_beq c quote)) [
  | inl toggles ↦ rw toggles (is_refused-split_loop zero (not in_quote) (c ∷ part) s tt)
  | inr other ↦ elim (Bool-cases (not in_quote && is_separator (c ∷ s))) [
    | inr kept ↦ rw (other, kept) (is_refused-split_loop zero in_quote (c ∷ part) s tt)
    | inl found ↦
        rw (other, found)
          (is_refused-add_part (reverse part) (split_loop 4 in_quote [] s)
            ∙ is_refused-split_loop 4 in_quote [] s
                (is_separator-Passes c s (ground (arith, Bool-cases in_quote))))
  ]
]

-- `split_top_level_and` refuses a text exactly when its quotes leave one open at the end.
pub split_top_level_and_refuses :
    (s : Text) → is_refused (split_top_level_and s) ≡ leaves_open false s
unfolding split_top_level_and
split_top_level_and_refuses s = is_refused-split_loop zero false [] s tt
