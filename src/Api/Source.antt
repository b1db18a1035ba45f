-- ===== src/Api/Source.antt =====
-- daemon/src/api.rs: `read_file`, lines of a source file under the project root. A `u32` keeps its
-- wrap-around, and `saturating_add` its bound.
use php_periscope.Common.{
  ℕ, ◌+◌, ◌-◌, ◌/◌, ◌%◌, ◌^◌, Option, none, some, List, [], ◌∷◌, Bool, true, false, not, ◌&&◌,
  if◌then◌else◌, leb, nat_beq, list_eq, reverse, and_then, unwrap_or, max, length,
}
use php_periscope.Common.Text.{Text, codes}
use php_periscope.Common.Maps.{get}
use php_periscope.Api.Reply.{ApiResult, answer, refuse, not_found, forbidden, ◌>>=◌, or_internal}
use php_periscope.Api.Disk.{Disk, slash, slashed, join, strip_prefix, read}
use php_periscope.Api.Traces.{ApiState}
use php_periscope.Api.Views.{at_most}

pub record FileQuery : Type 0 where
  pub path : Text
  pub line : Option ℕ
  pub radius : Option ℕ

pub record FileLine : Type 0 where
  pub number : ℕ
  pub source : Text

pub record FileSlice : Type 0 where
  pub path : Text
  pub start_line : ℕ
  pub end_line : ℕ
  pub total_lines : ℕ
  pub mtime_unix : ℕ
  pub lines : List FileLine

abbrev pub u32_size : ℕ
u32_size = 2 ^ 32

-- `u32::saturating_add`
abbrev pub saturating_add : ℕ → ℕ → ℕ
saturating_add a b = at_most (a + b) (u32_size - 1)

-- `str::lines`: the text between line feeds, a carriage return before one left out, and no last
-- line when the text ends with a line feed. The line so far is kept reversed.
unfoldable pub end_line : Text → Text
end_line [] = []
end_line (c ∷ line) = if nat_beq c 0x0d then reverse line else reverse (c ∷ line)

unfoldable pub lines_from : Text → Text → List Text
lines_from [] [] = []
lines_from (c ∷ line) [] = reverse (c ∷ line) ∷ []
lines_from line (c ∷ text) =
    let next = lines_from [] text in
    let same = lines_from (c ∷ line) text in if nat_beq c 0x0a then end_line line ∷ next else same

abbrev pub lines : Text → List Text
lines = lines_from []

-- `Path::is_absolute`, and `Path::starts_with` on canonical paths: whole components.
unfoldable pub is_absolute : Text → Bool
is_absolute [] = false
is_absolute (c ∷ path) = nat_beq c slash

unfoldable pub path_starts_with : Text → Text → Bool
path_starts_with path base = elim (strip_prefix base path) [
  | none ↦ false
  | some [] ↦ true
  | some (_ ∷ _) ↦ elim (strip_prefix (slashed base) path) [ none ↦ false | some _ ↦ true ]
]

-- The first and the last line asked for.
unfoldable pub line_window : Option ℕ → Option ℕ → ℕ → ℕ × ℕ
line_window (some line) (some radius) total =
    (max (line - radius) 1, at_most (saturating_add line radius) total)
line_window (some line) none total = (max (line - 20) 1, at_most (saturating_add line 20) total)
line_window none radius total = (1, total)

-- The `filter` and `map` over the enumerated lines, from the index `idx` on.
unfoldable pub select_lines : ℕ → ℕ → ℕ → List Text → List FileLine
select_lines start last idx [] = []
select_lines start last idx (src ∷ all_lines) =
    let n = (idx % u32_size + 1) % u32_size in
    let rest = select_lines start last (idx + 1) all_lines in
    if leb start n && leb n last then record { number = n; source = src } ∷ rest else rest

unfoldable pub mtime_unix : Disk → Text → ℕ
mtime_unix disk path =
    unwrap_or
      (and_then (get disk.files path) (λ file. elim file.metadata_fault as (λ x. Option ℕ) [
        | some _ ↦ none
        | none ↦ and_then file.modified (λ t. some (t / 10 ^ 9))
      ]))
      0

-- The slice of a file's text.
unfoldable pub slice_text : Text → ℕ → FileQuery → Text → FileSlice
slice_text path mtime q text =
    let all_lines = lines text in
    let total = length all_lines % u32_size in
    let window = line_window q.line q.radius total in
    record {
      path = path;
      start_line = window.0;
      end_line = window.1;
      total_lines = total;
      mtime_unix = mtime;
      lines = select_lines window.0 window.1 0 all_lines;
    }

-- `String::from_utf8_lossy` is a parameter.
unfoldable pub read_file : (List ℕ → Text) → ApiState → Disk → FileQuery → ApiResult FileSlice
read_file from_utf8_lossy state disk q =
    let abs = if is_absolute q.path then q.path else join state.project_root q.path in
    elim (disk.canonicalize abs) [
      | none ↦ refuse (not_found (codes "file not found"))
      | some canon ↦
          let root_canon = unwrap_or (disk.canonicalize state.project_root) state.project_root in
          if not (path_starts_with canon root_canon)
          then refuse (forbidden (codes "path is outside the project root"))
          else or_internal (read disk canon) >>= λ bytes.
              answer (slice_text canon (mtime_unix disk canon) q (from_utf8_lossy bytes))
    ]
