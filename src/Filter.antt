-- ===== src/Filter.antt =====
-- daemon/src/event_filter.rs: `Filter`. A text is the list of its characters: the bytes that the
-- source scans for are ASCII and stand for themselves in UTF-8, so scanning characters finds the
-- same places. What the code takes from the standard library's Unicode tables, from `f64` and
-- from `serde_json`'s printer is the record `TextOps`.
pub mod Split
pub mod Written
pub mod Match
mod Tests
use Prim.Native.String.{String}
use php_periscope.Common.{
  ℕ, zero, suc, Option, none, some, List, [], ◌∷◌, ◌++◌, map, reverse, Bool, true, false, not, ◌&&◌,
  ◌||◌, if◌then◌else◌, nat_beq, leb, length, ◌==◌, list_eq, and_then,
}
use php_periscope.Common.Text.{Text, codes}
use php_periscope.Common.Results.{Result, ok, err, ◌>>=◌, collect}
use php_periscope.Json.{Value, null, string, number, object, Number, Float, fields_get}

pub record TextOps : Type 0 where
  -- `char::is_whitespace`, `char::is_alphanumeric`, `str::to_lowercase`
  pub is_whitespace : ℕ → Bool
  pub is_alphanumeric : ℕ → Bool
  pub to_lowercase : Text → Text
  -- `serde_json::to_string`, `Number::as_f64`
  pub to_json : Value → Text
  pub as_f64 : Number → Option Float
  -- `str::parse::<f64>`, and `(a - b).abs() < f64::EPSILON`
  pub parse_f64 : Text → Option Float
  pub close_to : Float → Float → Bool

pub data Literal : Type 0 where
  exact : Text → Literal
  loose : Text → Literal

pub data Clause : Type 0 where
  path : List Text → Literal → Clause
  free_text : Text → Clause

pub record Filter : Type 0 where
  pub clauses : List Clause

abbrev pub quote : ℕ
quote = b'"'

unfoldable pub is_blank : ℕ → Bool
is_blank c = nat_beq c b' ' || nat_beq c 9

-- The window of five bytes: blank, A, N, D, blank, in either case.
unfoldable pub is_separator : Text → Bool
unfolding is_blank
is_separator (w0 ∷ w1 ∷ w2 ∷ w3 ∷ w4 ∷ _) =
    is_blank w0
    && (nat_beq w1 b'A' || nat_beq w1 b'a')
    && (nat_beq w2 b'N' || nat_beq w2 b'n')
    && (nat_beq w3 b'D' || nat_beq w3 b'd')
    && is_blank w4
is_separator _ = false

abbrev pub add_part : Text → Result (List Text) → Result (List Text)
add_part part rest = do parts ← rest; ok (part ∷ parts)

-- The `while` loop of `split_top_level_and`: `skip` characters of a separator are still to be
-- passed, `part` is `s[start..i]` backwards, and the list is what follows `i`.
unfoldable pub split_loop : ℕ → Bool → Text → Text → Result (List Text)
split_loop skip in_quote part [] =
    if in_quote then err (codes "unterminated quoted string") else ok (reverse part ∷ [])
split_loop (suc skip) in_quote part (c ∷ s) = split_loop skip in_quote part s
split_loop zero in_quote part (c ∷ s) =
    let toggled = split_loop zero (not in_quote) (c ∷ part) s in
    let split = add_part (reverse part) (split_loop 4 in_quote [] s) in
    let kept = split_loop zero in_quote (c ∷ part) s in
    if nat_beq c quote
    then toggled
    else if not in_quote && is_separator (c ∷ s)
    then split
    else kept

unfoldable pub split_top_level_and : Text → Result (List Text)
split_top_level_and s = split_loop 0 false [] s

abbrev pub add_char : ℕ → Option (Text × Text) → Option (Text × Text)
add_char c none = none
add_char c (some (key, val)) = some (c ∷ key, val)

-- The first ':' outside quotes: what stands before it and after it.
unfoldable pub find_colon : Bool → Text → Option (Text × Text)
find_colon in_quote [] = none
find_colon in_quote (c ∷ s) =
    let later = λ (q : Bool). find_colon q s in
    let keep = add_char c in
    if nat_beq c quote
    then keep (later (not in_quote))
    else if nat_beq c b':' && not in_quote
    then some ([], s)
    else keep (later in_quote)

-- `str::split('.')`
unfoldable pub split_dots : Text → Text → List Text
split_dots part [] = reverse part ∷ []
split_dots part (c ∷ s) =
    let next = split_dots [] s in
    let more = split_dots (c ∷ part) s in if nat_beq c b'.' then reverse part ∷ next else more

abbrev pub ends_with_quote : Text → Bool
ends_with_quote [] = false
ends_with_quote (c ∷ []) = nat_beq c quote
ends_with_quote (c ∷ d ∷ s) = ends_with_quote (d ∷ s)

unfoldable pub but_last : Text → Text
but_last [] = []
but_last (c ∷ []) = []
but_last (c ∷ d ∷ s) = c ∷ but_last (d ∷ s)

-- `t.len() >= 2 && t.starts_with('"') && t.ends_with('"')`, with what stands between.
unfoldable pub between_quotes : Text → Option Text
between_quotes (c ∷ d ∷ s) =
    if nat_beq c quote && ends_with_quote (d ∷ s) then some (but_last (d ∷ s)) else none
between_quotes _ = none

unfoldable pub all_chars : (ℕ → Bool) → Text → Bool
all_chars p [] = true
all_chars p (c ∷ s) = p c && all_chars p s

unfoldable pub starts_with : Text → Text → Bool
starts_with [] s = true
starts_with (c ∷ cs) [] = false
starts_with (c ∷ cs) (d ∷ s) = nat_beq c d && starts_with cs s

-- `hay.contains(needle)`
unfoldable pub contains_text : Text → Text → Bool
contains_text [] needle = starts_with needle []
contains_text (c ∷ s) needle = starts_with needle (c ∷ s) || contains_text s needle

-- One step of the walk in `lookup`.
unfoldable pub lookup_segment : Value → Text → Option Value
lookup_segment (object fs) seg = fields_get fs seg
lookup_segment _ seg = none

unfoldable pub lookup : Value → List Text → Option Value
lookup cur [] = some cur
lookup cur (seg ∷ segs) = and_then (lookup_segment cur seg) (λ v. lookup v segs)

module _ (ops : TextOps) where
  open ops use {is_whitespace, is_alphanumeric, to_lowercase, to_json, as_f64, parse_f64, close_to}

  unfoldable pub trim_start : Text → Text
  trim_start [] = []
  trim_start (c ∷ s) = let rest = trim_start s in if is_whitespace c then rest else c ∷ s

  -- `str::trim`
  unfoldable pub trim : Text → Text
  trim s = reverse (trim_start (reverse (trim_start s)))

  unfoldable pub unquote_or_pass : Text → Text
  unquote_or_pass s = elim (between_quotes (trim s)) [ none ↦ trim s | some t ↦ t ]

  unfoldable pub is_ident : ℕ → Bool
  is_ident c = is_alphanumeric c || nat_beq c b'_' || nat_beq c b'-'

  unfoldable pub parse_segment : Text → Text → Result Text
  parse_segment key [] = err (codes "empty path segment in `" ++ key ++ codes "`")
  parse_segment key (c ∷ s) =
      if all_chars is_ident (c ∷ s)
      then ok (c ∷ s)
      else err (codes "invalid path segment `" ++ (c ∷ s) ++ codes "` in `" ++ key ++ codes "`")

  unfoldable pub parse_literal : Text → Literal
  parse_literal val = elim (between_quotes val) [ none ↦ loose val | some t ↦ exact t ]

  unfoldable pub parse_path : Text → Text → Text → Result Clause
  parse_path raw [] val = err (codes "empty key before ':' in `" ++ raw ++ codes "`")
  parse_path raw (c ∷ key) val = do
    segments ← collect (λ s. parse_segment (c ∷ key) (trim s)) (split_dots [] (c ∷ key))
    ok (path segments (parse_literal val))

  unfoldable pub parse_clause : Text → Result Clause
  parse_clause raw = elim (find_colon false raw) [
    | none ↦ ok (free_text (to_lowercase (unquote_or_pass raw)))
    | some found ↦ parse_path raw (trim found.0) (trim found.1)
  ]

  -- The loop of `Filter::parse` over the parts.
  unfoldable pub parse_parts : List Text → Result (List Clause)
  parse_parts [] = ok []
  parse_parts (raw ∷ parts) =
      let rest = parse_parts parts in
      elim (trim raw) [
        | [] ↦ rest
        | c ∷ s ↦ do clause ← parse_clause (c ∷ s); clauses ← rest; ok (clause ∷ clauses)
      ]

  unfoldable pub parse : Text → Result Filter
  parse input = elim (trim input) [
    | [] ↦ ok (record { clauses = [] })
    | c ∷ s ↦ do
      parts ← split_top_level_and (c ∷ s)
      clauses ← parse_parts parts
      ok (record { clauses = clauses })
  ]

  unfoldable pub value_to_string : Value → Text
  value_to_string (string s) = s
  value_to_string null = []
  value_to_string other = to_json other

  unfoldable pub value_as_f64 : Value → Option Float
  value_as_f64 (number n) = as_f64 n
  value_as_f64 (string s) = parse_f64 s
  value_as_f64 _ = none

  unfoldable pub match_literal : Literal → Value → Bool
  match_literal (exact want) v = value_to_string v == want
  match_literal (loose want) v =
      if contains_text (to_lowercase (value_to_string v)) (to_lowercase want)
      then true
      else elim (parse_f64 want) [
        | none ↦ false
        | some a ↦ elim (value_as_f64 v) [ none ↦ false | some b ↦ close_to a b ]
      ]

  unfoldable pub match_clause : Clause → Value → Bool
  match_clause (free_text needle) event = contains_text (to_lowercase (to_json event)) needle
  match_clause (path segments lit) event = elim (lookup event segments) [
    | none ↦ false
    | some v ↦ match_literal lit v
  ]

  -- The loop of `Filter::matches`.
  unfoldable pub match_all : List Clause → Value → Bool
  match_all [] event = true
  match_all (c ∷ cs) event =
      let rest = match_all cs event in if not (match_clause c event) then false else rest

  unfoldable pub matches : Filter → Value → Bool
  matches f event = match_all f.clauses event

unfoldable pub is_empty : Filter → Bool
is_empty f = elim f.clauses [ [] ↦ true | _ ∷ _ ↦ false ]
