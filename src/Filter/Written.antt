-- ===== src/Filter/Written.antt =====
-- daemon/src/event_filter.rs: the parsing of a clause that is written as a dotted path of identifiers,
-- a colon and a text in quotes.
use mathlib.Core.List.{reverse_aux, reverse-reverse, reverse-append}
use php_periscope.Common.{
  ℕ, some, List, [], ◌∷◌, ◌++◌, true, false, ◌≡◌, refl, sym, ap, ◌∙◌, All, All-append, All-map,
  nat_beq, reverse,
}
use php_periscope.Common.Text.{Text}
use php_periscope.Common.Results.{ok, collect}
use php_periscope.Filter.{
  TextOps, path, exact, quote, is_blank, add_char, find_colon, split_dots, ends_with_quote,
  but_last, between_quotes, all_chars, is_ident, trim_start, trim, parse_segment, parse_literal,
  parse_path, parse_clause,
}
use php_periscope.Filter.Split.{Whole}

-- A clause: the segments of its path, the first of them apart, and the text that is asked for.
pub record Question : Type 0 where
  pub head : Text
  pub tail : List Text
  pub want : Text

-- The segments with a dot between them.
abbrev pub dotted : Text → List Text → Text
dotted seg [] = seg
dotted seg (next ∷ segs) = seg ++ b'.' ∷ dotted next segs

abbrev pub quoted : Text → Text
quoted want = quote ∷ want ++ quote ∷ []

abbrev pub written : Question → Text
written q = dotted q.head q.tail ++ b':' ∷ quoted q.want

abbrev pub IsUnquoted : ℕ → Type 0
IsUnquoted c = nat_beq c quote ≡ false

find_colon_lem :
    (key rest : Text)
    → All (λ c. IsUnquoted c × (nat_beq c b':' ≡ false)) key
    → find_colon false (key ++ b':' ∷ rest) ≡ some (key, rest)
unfolding find_colon
find_colon_lem [] rest h = refl
find_colon_lem (c ∷ key) rest ((a, b), h) = rw (a, b) (ap (add_char c) (find_colon_lem key rest h))

split_dots_lem :
    (part seg rest : Text)
    → All (λ c. nat_beq c b'.' ≡ false) seg
    → split_dots part (seg ++ b'.' ∷ rest) ≡ reverse (reverse_aux seg part) ∷ split_dots [] rest
unfolding split_dots
split_dots_lem part [] rest h = refl
split_dots_lem part (c ∷ seg) rest (a, h) = rw a (split_dots_lem (c ∷ part) seg rest h)

split_dots-last :
    (part seg : Text)
    → All (λ c. nat_beq c b'.' ≡ false) seg
    → split_dots part seg ≡ reverse (reverse_aux seg part) ∷ []
unfolding split_dots
split_dots-last part [] h = refl
split_dots-last part (c ∷ seg) (a, h) = rw a (split_dots-last (c ∷ part) seg h)

split_dots-dotted :
    (seg : Text) (segs : List Text)
    → All (All (λ c. nat_beq c b'.' ≡ false)) (seg ∷ segs)
    → split_dots [] (dotted seg segs) ≡ seg ∷ segs
split_dots-dotted seg [] (h, hs) = split_dots-last [] seg h ∙ ap (λ s. s ∷ []) (reverse-reverse seg)
split_dots-dotted seg (next ∷ segs) (h, hs) =
    split_dots_lem [] seg (dotted next segs) h
    ∙ ap (λ s. s ∷ split_dots [] (dotted next segs)) (reverse-reverse seg)
    ∙ ap (λ ss. seg ∷ ss) (split_dots-dotted next segs hs)

ends_with_quote_lem : (s : Text) → ends_with_quote (s ++ quote ∷ []) ≡ true
ends_with_quote_lem [] = refl
ends_with_quote_lem (c ∷ []) = refl
ends_with_quote_lem (c ∷ d ∷ s) = ends_with_quote_lem (d ∷ s)

but_last_lem : (s : Text) → but_last (s ++ quote ∷ []) ≡ s
unfolding but_last
but_last_lem [] = refl
but_last_lem (c ∷ []) = refl
but_last_lem (c ∷ d ∷ s) = ap (λ t. c ∷ t) (but_last_lem (d ∷ s))

between_quotes_lem : (want : Text) → between_quotes (quoted want) ≡ some want
unfolding between_quotes but_last
between_quotes_lem [] = refl
between_quotes_lem (c ∷ s) = rw (ends_with_quote_lem (c ∷ s)) (ap some (but_last_lem (c ∷ s)))

-- Between its quotes the text has no quote: a separator cannot begin in it.
Whole-quoted : (want : Text) → All IsUnquoted want → Whole true (want ++ quote ∷ [])
Whole-quoted [] h = refl
Whole-quoted (c ∷ s) (a, h) = rw a (refl, Whole-quoted s h)

Whole-key :
    (key rest : Text)
    → All (λ c. IsUnquoted c × (is_blank c ≡ false)) key
    → Whole false rest
    → Whole false (key ++ rest)
Whole-key [] rest h w = w
Whole-key (c ∷ key) rest ((a, b), h) w = rw (a, b) (refl, Whole-key key rest h w)

All-reverse_aux : (P : ℕ → Type 0) (s acc : Text) → All P s → All P acc → All P (reverse_aux s acc)
All-reverse_aux P [] acc h k = k
All-reverse_aux P (c ∷ s) acc (a, h) k = All-reverse_aux P s (c ∷ acc) h (a, k)

module _ (ops : TextOps) where
  abbrev pub IsSolid : ℕ → Type 0
  IsSolid c = ops.is_whitespace c ≡ false

  -- A character of a segment: one of an identifier, and none that parts a filter. (What is
  -- alphanumeric is neither blank nor punctuation.)
  abbrev pub IsPlain : ℕ → Type 0
  IsPlain c =
      (is_ident ops c ≡ true)
      × IsSolid c
      × (is_blank c ≡ false)
      × IsUnquoted c
      × (nat_beq c b':' ≡ false)
      × (nat_beq c b'.' ≡ false)

  abbrev pub IsSegment : Text → Type 0
  IsSegment [] = ⊥
  IsSegment (c ∷ s) = All IsPlain (c ∷ s)

  -- The segments are identifiers, and the text has no quote.
  abbrev pub IsWritten : Question → Type 0
  IsWritten q = IsSegment q.head × All IsSegment q.tail × All IsUnquoted q.want

  trim_start-solid : (s : Text) → All IsSolid s → trim_start ops s ≡ s
  unfolding trim_start
  trim_start-solid [] h = refl
  trim_start-solid (c ∷ s) (a, h) = rw a refl

  trim-solid : (s : Text) → All IsSolid s → trim ops s ≡ s
  unfolding trim
  trim-solid s h =
      ap (λ t. reverse (trim_start ops (reverse t))) (trim_start-solid s h)
      ∙ ap reverse (trim_start-solid (reverse s) (All-reverse_aux IsSolid s [] h tt))
      ∙ reverse-reverse s

  trim_start-first : (c : ℕ) (s : Text) → IsSolid c → trim_start ops (c ∷ s) ≡ c ∷ s
  unfolding trim_start
  trim_start-first c s h = rw h refl

  -- A text that begins with a solid character and ends with one.
  pub trim-ends :
      (c d : ℕ) (s body : Text)
      → IsSolid c
      → IsSolid d
      → c ∷ s ≡ body ++ d ∷ []
      → trim ops (c ∷ s) ≡ c ∷ s
  unfolding trim
  trim-ends c d s body h k e =
      let back : reverse (c ∷ s) ≡ d ∷ reverse body = ap reverse e ∙ reverse-append body (d ∷ []) in
      ap (λ t. reverse (trim_start ops (reverse t))) (trim_start-first c s h)
      ∙ ap (λ t. reverse (trim_start ops t)) back
      ∙ ap reverse (trim_start-first d (reverse body) k)
      ∙ ap reverse (sym back)
      ∙ reverse-reverse (c ∷ s)

  all_chars_lem : (s : Text) → All IsPlain s → all_chars (is_ident ops) s ≡ true
  unfolding all_chars
  all_chars_lem [] h = refl
  all_chars_lem (c ∷ s) (a, h) = rw (a.0, all_chars_lem s h) refl

  parse_segment_lem : (key s : Text) → IsSegment s → parse_segment ops key (trim ops s) ≡ ok s
  unfolding parse_segment
  parse_segment_lem key [] h = absurd h
  parse_segment_lem key (c ∷ s) h =
      rw (trim-solid (c ∷ s) (All-map IsPlain IsSolid (λ d p. p.1) (c ∷ s) h))
        (rw (all_chars_lem (c ∷ s) h) refl)

  collect_lem :
      (key : Text) (segs : List Text)
      → All IsSegment segs
      → collect (λ s. parse_segment ops key (trim ops s)) segs ≡ ok segs
  unfolding collect
  collect_lem key [] h = refl
  collect_lem key (s ∷ segs) (a, h) =
      rw (collect, parse_segment_lem key s a, collect_lem key segs h) refl

  -- What holds of every character of a dotted path.
  abbrev pub IsKey : ℕ → Type 0
  IsKey c = IsSolid c × (is_blank c ≡ false) × IsUnquoted c × (nat_beq c b':' ≡ false)

  IsKey-segment : (s : Text) → IsSegment s → All IsKey s
  IsKey-segment [] h = tt
  IsKey-segment (c ∷ s) h = All-map IsPlain IsKey (λ d p. (p.1, p.2, p.3, p.4)) (c ∷ s) h

  IsKey-dotted :
      (seg : Text) (segs : List Text)
      → IsSolid b'.'
      → IsSegment seg
      → All IsSegment segs
      → All IsKey (dotted seg segs)
  unfolding is_blank
  IsKey-dotted seg [] dot h hs = IsKey-segment seg h
  IsKey-dotted seg (next ∷ segs) dot h (k, hs) =
      All-append IsKey seg (b'.' ∷ dotted next segs) (IsKey-segment seg h)
        ((dot, refl, refl, refl), IsKey-dotted next segs dot k hs)

  dotless : (s : Text) → IsSegment s → All (λ c. nat_beq c b'.' ≡ false) s
  dotless [] h = tt
  dotless (c ∷ s) h = All-map IsPlain (λ c. nat_beq c b'.' ≡ false) (λ d p. p.5) (c ∷ s) h

  pub dotted_cons :
      (seg : Text) (segs : List Text)
      → IsSegment seg
      → (c : ℕ) × (k : Text) × (dotted seg segs ≡ c ∷ k)
  dotted_cons [] segs h = absurd h
  dotted_cons (c ∷ s) [] h = (c, s, refl)
  dotted_cons (c ∷ s) (next ∷ segs) h = (c, s ++ b'.' ∷ dotted next segs, refl)

  module _ (q : Question) (dot : IsSolid b'.') (mark : IsSolid quote) (h : IsWritten q) where
    abbrev pub key : Text
    key = dotted q.head q.tail

    pub key-IsKey : All IsKey key
    key-IsKey = IsKey-dotted q.head q.tail dot h.0 h.1

    pub Whole-written : Whole false (written q)
    unfolding is_blank
    Whole-written =
        Whole-key key (b':' ∷ quoted q.want)
          (All-map IsKey (λ c. IsUnquoted c × (is_blank c ≡ false)) (λ c k. (k.2, k.1)) key
            key-IsKey)
          (refl, Whole-quoted q.want h.2)

    parse_path_lem :
        (raw : Text)
        → parse_path ops raw key (quoted q.want) ≡ ok (path (q.head ∷ q.tail) (exact q.want))
    unfolding parse_path parse_literal
    parse_path_lem raw =
        let (c, k, shape) = dotted_cons q.head q.tail h.0 in
        let parts : split_dots [] (c ∷ k) ≡ q.head ∷ q.tail =
          ap (split_dots []) (sym shape)
          ∙ split_dots-dotted q.head q.tail (
            dotless q.head h.0,
            All-map IsSegment (All (λ c. nat_beq c b'.' ≡ false)) dotless q.tail h.1,
          ) in
        rw
          (
            shape,
            parse_path,
            parts,
            collect_lem (c ∷ k) (q.head ∷ q.tail) (h.0, h.1),
            parse_literal,
            between_quotes_lem q.want,
          )
          refl

    pub parse_clause-written :
        parse_clause ops (written q) ≡ ok (path (q.head ∷ q.tail) (exact q.want))
    unfolding parse_clause
    parse_clause-written =
        rw
          (
            parse_clause,
            find_colon_lem key (quoted q.want) (
                All-map IsKey (λ c. IsUnquoted c × (nat_beq c b':' ≡ false)) (λ c k. (k.2, k.3)) key
                  key-IsKey),
            trim-solid key (All-map IsKey IsSolid (λ c k. k.0) key key-IsKey),
            trim-ends quote quote (q.want ++ quote ∷ []) (quote ∷ q.want) mark mark refl,
          )
          (parse_path_lem (written q))
