-- ===== src/Insights/Sql.antt =====
-- daemon/src/insights.rs: `normalise_sql`.
use php_periscope.Common.{
  ℕ, List, [], ◌∷◌, ◌++◌, Bool, list_eq, nat_eq, pair_eq, if◌then◌else◌, nat_beq, leb, ◌||◌, ◌&&◌,
  reverse,
}
use php_periscope.Common.Text.{Text}

-- Where `normalise_sql` is: outside a literal, in the rest of a number, or in a quoted text.
pub data Mode : Type 0 where
  plain : Mode
  digits : Mode
  quoted : ℕ → Mode

abbrev pub is_digit : ℕ → Bool
is_digit c = leb b'0' c && leb c b'9'

abbrev pub is_quote : ℕ → Bool
is_quote c = nat_beq c 39 || nat_beq c b'"'

-- The arms of the `match` on a character: the mode after it, and what is pushed. The '?' for a
-- literal is pushed where it starts, which makes the same text.
abbrev pub arm_mode : ℕ → Mode
arm_mode c = if is_digit c then digits else if is_quote c then quoted c else plain

abbrev pub arm_output : ℕ → Text
arm_output c = if is_digit c || is_quote c then b'?' ∷ [] else c ∷ []

unfoldable pub next_mode : Mode → ℕ → Mode
next_mode plain c = arm_mode c
next_mode digits c = if is_digit c || nat_beq c b'.' then digits else arm_mode c
next_mode (quoted q) c = if nat_beq c q then plain else quoted q

unfoldable pub output : Mode → ℕ → Text
output plain c = arm_output c
output digits c = if is_digit c || nat_beq c b'.' then [] else arm_output c
output (quoted q) c = []

unfoldable pub strip_literals : Mode → Text → Text
strip_literals mode [] = []
strip_literals mode (c ∷ s) = output mode c ++ strip_literals (next_mode mode c) s

abbrev pub word_of : Text → List Text
word_of [] = []
word_of (c ∷ part) = reverse (c ∷ part) ∷ []

module _ (is_whitespace : ℕ → Bool) where
  -- `split_whitespace`, with `part` a word backwards.
  unfoldable pub words : Text → Text → List Text
  words part [] = word_of part
  words part (c ∷ s) =
      let ended = words [] s in
      let more = words (c ∷ part) s in if is_whitespace c then word_of part ++ ended else more

  -- `join(" ")`
  unfoldable pub join : List Text → Text
  join [] = []
  join (w ∷ []) = w
  join (w ∷ v ∷ ws) = w ++ b' ' ∷ join (v ∷ ws)

  unfoldable pub normalise_sql : Text → Text
  normalise_sql sql = join (words [] (strip_literals plain sql))
