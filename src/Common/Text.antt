-- ===== src/Common/Text.antt =====
-- Text as the list of its Unicode scalar values. A text literal is written `codes "…"`.
use Prim.Native.Char.{code}
use Prim.Native.String.{String}
use Prim.Native.Nat.{ℕ, ◌+◌, ◌-◌}
use mathlib.Core.List.{List, [], ◌∷◌}
use mathlib.Core.Option.{Option, none, some}
use php_periscope.Common.Tests.{if◌then◌else◌, ltb, leb, nat_beq, map_some}

abbrev pub Text : Type 0
Text = List ℕ

abbrev pub codes : String → Text
codes String.[] = []
codes (String.◌∷◌ c s) = code c ∷ codes s

-- The length of a text in bytes of UTF-8.
abbrev pub utf8_width : ℕ → ℕ
utf8_width c = if ltb c 0x80 then 1 else if ltb c 0x800 then 2 else if ltb c 0x10000 then 3 else 4

abbrev pub byte_len : Text → ℕ
byte_len [] = 0
byte_len (c ∷ s) = utf8_width c + byte_len s

-- `&s[..n]`: `none` where it panics, past the end or inside a character.
unfoldable pub slice_to : ℕ → Text → Option Text
slice_to n [] = if nat_beq n 0 then some [] else none
slice_to n (c ∷ s) =
    let rest = slice_to (n - utf8_width c) s in
    if nat_beq n 0
    then some []
    else if leb (utf8_width c) n
    then map_some (λ t. c ∷ t) rest
    else none
