-- ===== src/Api/Names.antt =====
-- daemon/src/api.rs: the names of files and the paths they make in a directory.
use php_periscope.Common.{
  ℕ, Option, none, some, [], ◌∷◌, ◌++◌, ◌≡◌, refl, sym, ◌∙◌, arith, false, ◌||◌, nat_beq, ◌==◌,
  list_eq, All, Bool-cases, Option-cases, inl, inr,
}
use php_periscope.Common.Text.{Text, codes}
use php_periscope.Common.Results.{ok}
use php_periscope.Common.Maps.{Map}
use php_periscope.Common.Numbers.{IsDigit, show_nat, show_nat-IsDigit, rsplit_once}
use php_periscope.Api.Disk.{
  File, slash, has_char, slashed, join, strip_prefix, plain_name, child_name, children, file_stem,
  unless_fault,
}

-- A name that a file in a directory can have.
abbrev pub IsPlain : Text → Type 0
IsPlain name = plain_name name ≡ some name

pub has_char-append : (d : ℕ) (s t : Text) → has_char d (s ++ t) ≡ (has_char d s || has_char d t)
has_char-append d [] t = refl
has_char-append d (c ∷ s) t = ground (arith, has_char-append d s t)

strip_prefix-append : (p s : Text) → strip_prefix p (p ++ s) ≡ some s
unfolding strip_prefix
strip_prefix-append [] s = refl
strip_prefix-append (c ∷ p) s = ground (arith, strip_prefix-append p s)

pub IsPlain-no_slash : (c : ℕ) (s : Text) → has_char slash (c ∷ s) ≡ false → IsPlain (c ∷ s)
IsPlain-no_slash c s h = rw h refl

pub no_slash_of_IsPlain : (name : Text) → IsPlain name → has_char slash name ≡ false
no_slash_of_IsPlain [] h = refl
no_slash_of_IsPlain (c ∷ s) h = ground arith

join-IsPlain : (dir name : Text) → IsPlain name → join dir name ≡ slashed dir ++ name
unfolding join
join-IsPlain dir [] h = absurd (cc h)
join-IsPlain dir (c ∷ s) h =
    let here : nat_beq c slash ≡ false = ground (arith, no_slash_of_IsPlain (c ∷ s) h) in
    rw here refl

-- The path that a plain name makes stands in the directory, under that name.
pub child_name-join : (dir name : Text) → IsPlain name → child_name dir (join dir name) ≡ some name
unfolding child_name
child_name-join dir name h = rw (join-IsPlain dir name h, strip_prefix-append (slashed dir) name) h

IsPlain-plain_name : (s name : Text) → plain_name s ≡ some name → IsPlain name
IsPlain-plain_name [] name e = absurd (cc e)
IsPlain-plain_name (c ∷ s) name e = elim (Bool-cases (has_char slash (c ∷ s))) [
  | inl bad ↦ absurd (cc (rw bad at e))
  | inr fine ↦
      let same : c ∷ s ≡ name = cc (rw fine at e) in rw (← same) (IsPlain-no_slash c s fine)
]

pub IsPlain-child_name : (dir path name : Text) → child_name dir path ≡ some name → IsPlain name
unfolding child_name
IsPlain-child_name dir path name e = elim (Option-cases (strip_prefix (slashed dir) path)) [
  | inl gone ↦ absurd (cc (rw gone at e))
  | inr (s, found) ↦ IsPlain-plain_name s name (rw found at e)
]

pub children-IsPlain :
    (dir : Text) (files : Map Text File)
    → All (λ (e : Text × File). IsPlain e.0) (children dir files)
unfolding children
children-IsPlain dir [] = tt
children-IsPlain dir ((path, file) ∷ files) = elim (Option-cases (child_name dir path)) [
  | inl gone ↦ rw (children, gone) (children-IsPlain dir files)
  | inr (name, found) ↦
      rw (children, found) (IsPlain-child_name dir path name found, children-IsPlain dir files)
]

-- A text before its last dot has no slash if the whole has none.
rsplit_once-no_slash :
    (d : ℕ) (s : Text) (parts : Text × Text)
    → rsplit_once d s ≡ some parts
    → has_char slash s ≡ false
    → has_char slash parts.0 ≡ false
unfolding rsplit_once
rsplit_once-no_slash d [] parts e h = absurd (cc e)
rsplit_once-no_slash d (c ∷ s) parts e h = elim (Option-cases (rsplit_once d s)) [
  | inr (rest, found) ↦
      let later = rsplit_once-no_slash d s rest found (ground (arith, h)) in
      let whole : some (c ∷ rest.0, rest.1) ≡ some parts = rw found at e in
      let same : (c ∷ rest.0, rest.1) ≡ parts = cc whole in rw (← same) (ground (arith, later, h))
  | inl gone ↦ elim (Bool-cases (nat_beq c d)) [
    | inl here ↦
        let whole : some ([], s) ≡ some parts = rw (gone, here) at e in
        let same : ([], s) ≡ parts = cc whole in rw (← same) refl
    | inr other ↦ absurd (cc (rw (gone, other) at e))
  ]
]

pub file_stem-no_slash :
    (name : Text) → has_char slash name ≡ false → has_char slash (file_stem name) ≡ false
unfolding file_stem
file_stem-no_slash name h = elim (Bool-cases (name == codes "..")) [
  | inl dots ↦ rw dots h
  | inr other ↦ elim (Option-cases (rsplit_once b'.' name)) [
    | inl gone ↦ rw (other, gone) h
    | inr (([], after), found) ↦ rw (other, found) h
    | inr ((c ∷ before, after), found) ↦
        rw (other, found) (rsplit_once-no_slash b'.' name (c ∷ before, after) found h)
  ]
]

pub show_nat-no_slash : (n : ℕ) → has_char slash (show_nat n) ≡ false
show_nat-no_slash n = digits_lem (show_nat n) (show_nat-IsDigit n)
  where
    digits_lem : (s : Text) → All IsDigit s → has_char slash s ≡ false
    digits_lem [] h = refl
    digits_lem (c ∷ s) ((low, high), h) = ground (arith, digits_lem s h)

strip_prefix_lem : (p s rest : Text) → strip_prefix p s ≡ some rest → p ++ rest ≡ s
unfolding strip_prefix
strip_prefix_lem [] s rest e = sym (cc e)
strip_prefix_lem (c ∷ p) [] rest e = absurd (cc e)
strip_prefix_lem (c ∷ p) (d ∷ s) rest e = elim (Bool-cases (nat_beq c d)) [
  | inr other ↦ absurd (cc (rw (strip_prefix, other) at e))
  | inl same ↦
      let head : c ≡ d = ground (arith, same) in
      rw (head, strip_prefix_lem p s rest (rw (strip_prefix, same) at e)) refl
]

plain_name_lem : (s name : Text) → plain_name s ≡ some name → s ≡ name
plain_name_lem [] name e = absurd (cc e)
plain_name_lem (c ∷ s) name e = elim (Bool-cases (has_char slash (c ∷ s))) [
  | inl bad ↦ absurd (cc (rw bad at e))
  | inr fine ↦ cc (rw fine at e)
]

-- A path of the directory is what its name makes.
pub join-child_name :
    (dir path name : Text) → child_name dir path ≡ some name → join dir name ≡ path
unfolding child_name
join-child_name dir path name e = elim (Option-cases (strip_prefix (slashed dir) path)) [
  | inl gone ↦ absurd (cc (rw gone at e))
  | inr (s, found) ↦
      let same = plain_name_lem s name (rw found at e) in
      join-IsPlain dir name (IsPlain-child_name dir path name e)
      ∙ rw (← same) (strip_prefix_lem (slashed dir) path s found)
]

pub of_unless_fault {ℓ} :
    {A : Type ℓ} (fault : Option Text) (a b : A) → unless_fault fault a ≡ ok b → a ≡ b
of_unless_fault none a b e = cc e
of_unless_fault (some text) a b e = absurd (cc e)
