-- ===== src/Dap/Framing.antt =====
-- daemon/src/dap.rs: a message that is framed is read back.
use mathlib.Core.List.{reverse-append, reverse-reverse}
use php_periscope.Common.{
  ℕ, suc, ◌+◌, ◌≤◌, ◌<◌, ◌^◌, Option, none, some, List, [], ◌∷◌, ◌++◌, ◌≡◌, refl, sym, ap, ◌∙◌,
  subst, arith, true, false, nat_beq, ltb, length, reverse, All, All-append, All-map, length-append,
}
use php_periscope.Common.Text.{Text, codes}
use php_periscope.Common.Results.{ok}
use php_periscope.Common.Numbers.{
  IsDigit, show_nat, show_nat-IsDigit, length-show_nat, parse_u64, parse_u64-show_nat,
}
use php_periscope.Filter.{TextOps, trim, trim_start}
use php_periscope.Link.Frames.{read_exact-append}
use php_periscope.Api.Disk.{strip_prefix}
use php_periscope.Dap.Session.{DapMessage}
use php_periscope.Dap.Wire.{
  Wire, max_header_line, read_line, drop_ends, trim_ends, read_header, read_headers, read_dap_body,
  read_dap_message, framed,
}

-- A byte that ends no line.
abbrev IsInner : ℕ → Type 0
IsInner c = (nat_beq c 0x0a ≡ false) × (nat_beq c 0x0d ≡ false)

read_line_lem :
    (total : ℕ) (line rest : List ℕ)
    → All (λ c. nat_beq c 0x0a ≡ false) line
    → total + length line ≤ max_header_line
    → read_line total (line ++ 0x0a ∷ rest) ≡ ok (line ++ 0x0a ∷ [], rest)
unfolding read_line
read_line_lem total [] rest inner short = refl
read_line_lem total (c ∷ line) rest (here, inner) short =
    let fits : ltb max_header_line (total + 1) ≡ false = ground (arith, short) in
    rw (here, fits, read_line_lem (total + 1) line rest inner (omega arith)) refl

All-reverse : (P : ℕ → Type 0) (s : Text) → All P s → All P (reverse s)
All-reverse P [] h = tt
All-reverse P (c ∷ s) (p, h) =
    subst (All P) (sym (reverse-append (c ∷ []) s))
      (All-append P (reverse s) (c ∷ []) (All-reverse P s h) (p, tt))

drop_ends-IsInner : (s : Text) → All IsInner s → drop_ends s ≡ s
unfolding drop_ends
drop_ends-IsInner [] h = refl
drop_ends-IsInner (c ∷ s) ((lf, cr), h) = rw (lf, cr) refl

-- A line without line ends, once its two at the end are taken off.
trim_ends_lem : (s : Text) → All IsInner s → trim_ends (s ++ 0x0d ∷ 0x0a ∷ []) ≡ s
unfolding trim_ends drop_ends
trim_ends_lem s h =
    ap (λ t. reverse (drop_ends t)) (reverse-append s (0x0d ∷ 0x0a ∷ []))
    ∙ ap reverse (drop_ends-IsInner (reverse s) (All-reverse IsInner s h))
    ∙ reverse-reverse s

module _ (ops : TextOps) where
  trim_start-none : (s : Text) → All (λ c. ops.is_whitespace c ≡ false) s → trim_start ops s ≡ s
  unfolding trim_start
  trim_start-none [] h = refl
  trim_start-none (c ∷ s) (p, h) = rw p refl

  -- A space before a text without blanks is trimmed.
  trim_lem :
      (s : Text)
      → ops.is_whitespace b' ' ≡ true
      → All (λ c. ops.is_whitespace c ≡ false) s
      → trim ops (b' ' ∷ s) ≡ s
  unfolding trim trim_start
  trim_lem s space h =
      let blank = λ (c : ℕ). ops.is_whitespace c ≡ false in
      rw (space, trim_start-none s h, trim_start-none (reverse s) (All-reverse blank s h))
        (reverse-reverse s)

abbrev label : Text
label = codes "Content-Length:"

digit-IsInner : (c : ℕ) → IsDigit c → IsInner c
digit-IsInner c (low, high) = (ground arith, ground arith)

-- The first line of a frame, without its end.
abbrev length_line : ℕ → Text
length_line n = label ++ b' ' ∷ show_nat n

split_frame :
    (line body rest : List ℕ)
    → line ++ (0x0d ∷ 0x0a ∷ 0x0d ∷ 0x0a ∷ []) ++ body ++ rest
      ≡ (line ++ 0x0d ∷ []) ++ 0x0a ∷ 0x0d ∷ 0x0a ∷ (body ++ rest)
split_frame [] body rest = refl
split_frame (c ∷ line) body rest = ap (λ t. c ∷ t) (split_frame line body rest)

length_line-IsInner : (n : ℕ) → All IsInner (length_line n)
length_line-IsInner n =
    let rest = All-map IsDigit IsInner digit-IsInner (show_nat n) (show_nat-IsDigit n) in
    ground (arith, rest)

digit-ascii : (c : ℕ) → IsDigit c → c < 128
digit-ascii c (low, high) = omega arith

length_line-ascii : (n : ℕ) → All (λ c. c < 128) (length_line n)
length_line-ascii n =
    let rest = All-map IsDigit (λ c. c < 128) digit-ascii (show_nat n) (show_nat-IsDigit n) in
    ground (arith, rest)

length_line-no_feed : (n : ℕ) → All (λ c. nat_beq c 0x0a ≡ false) (length_line n ++ 0x0d ∷ [])
length_line-no_feed n =
    All-append (λ c. nat_beq c 0x0a ≡ false) (length_line n) (0x0d ∷ [])
      (All-map IsInner (λ c. nat_beq c 0x0a ≡ false) (λ c p. p.0) (length_line n)
        (length_line-IsInner n))
      (refl, tt)

length_line-short : (n : ℕ) → length (length_line n ++ 0x0d ∷ []) ≤ max_header_line
length_line-short n = omega (arith, length-show_nat n, length-append (show_nat n) (0x0d ∷ []))

module _ (wire : Wire) (space : wire.ops.is_whitespace b' ' ≡ true)
    (digit : (c : ℕ) → IsDigit c → wire.ops.is_whitespace c ≡ false)
    (ascii : (s : List ℕ) → All (λ c. c < 128) s → wire.from_utf8_lossy s ≡ s) where
  header_of :
      (line rest : Text) (content_length : Option ℕ) (len : ℕ)
      → strip_prefix label line ≡ some rest
      → parse_u64 (trim wire.ops rest) ≡ some len
      → read_header wire line content_length ≡ ok (some len)
  unfolding read_header strip_prefix
  header_of line rest content_length len found parsed = rw (found, parsed) refl

  read_header_lem : (n : ℕ) → n < 2 ^ 64 → read_header wire (length_line n) none ≡ ok (some n)
  unfolding strip_prefix
  read_header_lem n fits =
      let blank =
        All-map IsDigit (λ c. wire.ops.is_whitespace c ≡ false) digit (show_nat n)
          (show_nat-IsDigit n) in
      header_of (length_line n) (b' ' ∷ show_nat n) none n refl
        (ap parse_u64 (trim_lem wire.ops (show_nat n) space blank) ∙ parse_u64-show_nat n fits)

  one_line :
      (fuel : ℕ) (content_length next : Option ℕ) (stream rest : List ℕ) (byte : ℕ) (bytes : List ℕ)
      (c : ℕ) (line : Text)
      → read_line 0 stream ≡ ok (byte ∷ bytes, rest)
      → trim_ends (wire.from_utf8_lossy (byte ∷ bytes)) ≡ c ∷ line
      → read_header wire (c ∷ line) content_length ≡ ok next
      → read_headers wire (suc fuel) content_length stream ≡ read_headers wire fuel next rest
  unfolding read_headers
  one_line fuel content_length next stream rest byte bytes c line taken trimmed header =
      rw (read_headers, taken, trimmed, header) refl

  last_line :
      (fuel : ℕ) (content_length : Option ℕ) (stream rest : List ℕ) (byte : ℕ) (bytes : List ℕ)
      → read_line 0 stream ≡ ok (byte ∷ bytes, rest)
      → trim_ends (wire.from_utf8_lossy (byte ∷ bytes)) ≡ []
      → read_headers wire (suc fuel) content_length stream ≡ some (ok (some (content_length, rest)))
  unfolding read_headers
  last_line fuel content_length stream rest byte bytes taken trimmed =
      rw (read_headers, taken, trimmed) refl

  ends_lem :
      (s : Text)
      → All (λ c. c < 128) s
      → All IsInner s
      → trim_ends (wire.from_utf8_lossy ((s ++ 0x0d ∷ []) ++ 0x0a ∷ [])) ≡ s
  ends_lem s low inner =
      let whole : All (λ c. c < 128) ((s ++ 0x0d ∷ []) ++ 0x0a ∷ []) =
        All-append (λ c. c < 128) (s ++ 0x0d ∷ []) (0x0a ∷ [])
          (All-append (λ c. c < 128) s (0x0d ∷ []) low (omega arith, tt)) (omega arith, tt) in
      ap trim_ends (ascii ((s ++ 0x0d ∷ []) ++ 0x0a ∷ []) whole)
      ∙ ap trim_ends (two_ends s)
      ∙ trim_ends_lem s inner
    where
      two_ends : (s : Text) → (s ++ 0x0d ∷ []) ++ 0x0a ∷ [] ≡ s ++ 0x0d ∷ 0x0a ∷ []
      two_ends [] = refl
      two_ends (c ∷ s) = ap (λ t. c ∷ t) (two_ends s)

  blank_line :
      {stream : List ℕ} → read_line 0 (0x0d ∷ 0x0a ∷ stream) ≡ ok (0x0d ∷ 0x0a ∷ [], stream)
  unfolding read_line
  blank_line = refl

  read_headers_lem :
      (fuel n : ℕ) (stream : List ℕ)
      → n < 2 ^ 64
      → read_headers wire
          (suc (suc fuel))
          none
          ((length_line n ++ 0x0d ∷ []) ++ 0x0a ∷ 0x0d ∷ 0x0a ∷ stream)
        ≡ some (ok (some (some n, stream)))
  read_headers_lem fuel n stream fits =
      one_line (suc fuel) none (some n)
        ((length_line n ++ 0x0d ∷ []) ++ 0x0a ∷ 0x0d ∷ 0x0a ∷ stream) (0x0d ∷ 0x0a ∷ stream) b'C' _
        b'C' _
        (read_line_lem 0 (length_line n ++ 0x0d ∷ []) (0x0d ∷ 0x0a ∷ stream) (length_line-no_feed n)
          (omega (arith, length_line-short n)))
        (ends_lem (length_line n) (length_line-ascii n) (length_line-IsInner n))
        (read_header_lem n fits)
      ∙ last_line fuel (some n) (0x0d ∷ 0x0a ∷ stream) stream 0x0d (0x0a ∷ []) blank_line
          (ends_lem [] tt tt)

  after_headers :
      (stream left : List ℕ) (content_length : Option ℕ)
      → read_headers wire (suc (length stream)) none stream
        ≡ some (ok (some (content_length, left)))
      → read_dap_message wire stream ≡ some (read_dap_body wire content_length left)
  unfolding read_dap_message
  after_headers stream left content_length e = rw (read_dap_message, e) refl

  -- A message whose body is framed and followed by more of the stream is read whole, and what
  -- follows is left: when the body has fewer than 2^64 bytes and decodes, a space is white space
  -- and no digit is, and ASCII bytes are decoded as themselves.
  pub read_dap_message_lem :
      (msg : DapMessage) (body rest : List ℕ)
      → length body < 2 ^ 64
      → wire.decode body ≡ some msg
      → read_dap_message wire (framed wire body ++ rest) ≡ some (ok (some (msg, rest)))
  unfolding read_dap_message read_dap_body framed
  read_dap_message_lem msg body rest fits decoded =
      let n = length body in
      let stream = framed wire body ++ rest in
      let headers : read_headers wire (suc (length stream)) none stream
          ≡ some (ok (some (some n, body ++ rest))) =
        ap (read_headers wire (suc (length stream)) none) (split_frame (length_line n) body rest)
        ∙ read_headers_lem _ n (body ++ rest) fits in
      after_headers stream (body ++ rest) (some n) headers
      ∙ rw (read_dap_body, read_exact-append body rest, decoded) refl
