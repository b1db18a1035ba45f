-- ===== src/Export/Assets.antt =====
-- daemon/src/bin/export.rs: the page of the UI, with its assets written into it.
use php_periscope.Common.{
  ℕ, zero, suc, Option, none, some, List, [], ◌∷◌, ◌++◌, Bool, ◌||◌, if◌then◌else◌, nat_beq, length,
  drop, and_then, map_some,
}
use php_periscope.Common.Text.{Text, codes}
use php_periscope.Common.Results.{Result, ok, err}
use php_periscope.Filter.{starts_with, contains_text}
use php_periscope.Api.Reply.{with_context}
use php_periscope.Api.Disk.{Disk, slash, join, read}

-- `s.find(needle)`, as what stands before the first occurrence and what stands from it on.
unfoldable pub split_at_text : Text → Text → Option (Text × Text)
split_at_text needle [] = if starts_with needle [] then some ([], []) else none
split_at_text needle (c ∷ s) =
    let later = split_at_text needle s in
    if starts_with needle (c ∷ s) then some ([], c ∷ s) else map_some (λ p. (c ∷ p.0, p.1)) later

-- `s.find(c)` for a character.
abbrev pub split_at_char : ℕ → Text → Option (Text × Text)
split_at_char d = split_at_text (d ∷ [])

-- The tag at the head of a text, up to its `>`, and what follows.
unfoldable pub take_tag : Text → Text × Text
take_tag [] = ([], [])
take_tag (c ∷ s) =
    let rest = take_tag s in if nat_beq c b'>' then (c ∷ [], s) else (c ∷ rest.0, rest.1)

unfoldable pub extract_attr : Text → Text → Option Text
extract_attr tag name =
    let needle = name ++ codes "=\"" in
    and_then (split_at_text needle tag)
      (λ found. map_some (λ value. value.0) (split_at_char b'"' (drop (length needle) found.1)))

unfoldable pub is_absolute : Text → Bool
is_absolute url =
    starts_with (codes "http://") url
    || starts_with (codes "https://") url
    || starts_with (codes "//") url
    || starts_with (codes "data:") url

-- `trim_start_matches('/')`
unfoldable pub trim_slashes : Text → Text
trim_slashes [] = []
trim_slashes (c ∷ s) = let rest = trim_slashes s in if nat_beq c slash then rest else c ∷ s

-- `std::fs::read_to_string`, on whether bytes are the UTF-8 of a text.
unfoldable pub read_to_string : (List ℕ → Option Text) → Disk → Text → Result Text
read_to_string from_utf8 disk path = elim (read disk path) [
  | err e ↦ err e
  | ok bytes ↦ elim (from_utf8 bytes) [
    | none ↦ err (codes "stream did not contain valid UTF-8")
    | some text ↦ ok text
  ]
]

unfoldable pub read_asset : (List ℕ → Option Text) → Disk → Text → Text → Result Text
read_asset from_utf8 disk ui_dir href =
    let path = join ui_dir (trim_slashes href) in
    with_context (read_to_string from_utf8 disk path) (codes "reading asset " ++ path)

-- The asset that a tag asks for, if it is to be written in: a style sheet or a script.
pub data Asset : Type 0 where
  style : (href : Text) → Asset
  script : (src : Text) → Asset
  neither : Asset

abbrev pub local : (Text → Asset) → Option Text → Option Asset
local make none = none
local make (some url) = if is_absolute url then none else some (make url)

unfoldable pub style_of : Text → Option Asset
style_of tag =
    if contains_text tag (codes "rel=\"stylesheet\"")
    then local style (extract_attr tag (codes "href"))
    else none

unfoldable pub script_of : Text → Option Asset
script_of tag =
    if starts_with (codes "<script") tag
    then local script (extract_attr tag (codes "src"))
    else none

unfoldable pub asset_of : Text → Asset
asset_of tag = elim (style_of tag) [
  | some a ↦ a
  | none ↦ elim (script_of tag) [ some a ↦ a | none ↦ neither ]
]

-- What follows the end of a script, or all of it where the script has no end.
unfoldable pub past_script : Text → Text
past_script rest = elim (split_at_text (codes "</script>") rest) [
  | none ↦ rest
  | some found ↦ drop (length (codes "</script>")) found.1
]

-- The loop of `inline_assets`, given how an asset is read, the output so far and the rest of the
-- page. Each round takes a tag off the rest, so as many rounds as it has characters are enough;
-- `none` is fuel that ran out. What stands after the last tag is not written.
unfoldable pub inline_loop : (Text → Result Text) → ℕ → Text → Text → Option (Result Text)
inline_loop asset zero out rest = elim (split_at_char b'<' rest) [
  | none ↦ some (ok out)
  | some _ ↦ none
]
inline_loop asset (suc fuel) out rest = elim (split_at_char b'<' rest) [
  | none ↦ some (ok out)
  | some (before, after) ↦
      let tag = (take_tag after).0 in
      let next = (take_tag after).1 in
      elim (asset_of tag) [
        | style href ↦ elim (asset href) [
          | err e ↦ some (err e)
          | ok text ↦
              inline_loop asset fuel (out ++ before ++ codes "<style>" ++ text ++ codes "</style>")
                next
        ]
        | script src ↦ elim (asset src) [
          | err e ↦ some (err e)
          | ok text ↦
              inline_loop asset fuel
                (out ++ before ++ codes "<script type=\"module\">" ++ text ++ codes "</script>")
                (past_script next)
        ]
        | neither ↦ inline_loop asset fuel (out ++ before ++ tag) next
      ]
]

unfoldable pub inline_assets : (Text → Result Text) → Text → Option (Result Text)
inline_assets asset html = inline_loop asset (length html) [] html
