-- ===== src/Api/Lines.antt =====
-- daemon/src/api.rs: which lines of a file `read_file` shows.
use php_periscope.Common.{
  ℕ, zero, suc, ◌+◌, ◌-◌, ◌%◌, ◌≤◌, ◌<◌, Option, none, some, List, [], ◌∷◌, ◌≡◌, refl, ap, ◌∙◌,
  arith, true, false, if◌then◌else◌, leb, length, get_elem?, map_some, ◌&&◌, Bool-cases, inl, inr,
}
use php_periscope.Common.Text.{Text}
use php_periscope.Api.Source.{
  FileQuery, FileLine, u32_size, lines, line_window, select_lines, slice_text,
}

abbrev numbered : ℕ → Text → FileLine
numbered n src = record { number = n; source = src }

line_number_lem : (idx : ℕ) → idx + 1 < u32_size → (idx % u32_size + 1) % u32_size ≡ idx + 1
line_number_lem idx h = omega arith

-- One line, which is shown when the window holds its number.
select_lines-step :
    (start last idx : ℕ) (src : Text) (all_lines : List Text)
    → idx + 1 < u32_size
    → select_lines start last idx (src ∷ all_lines) ≡ (
        if leb start (idx + 1) && leb (idx + 1) last
        then numbered (idx + 1) src ∷ select_lines start last (idx + 1) all_lines
        else select_lines start last (idx + 1) all_lines)
unfolding select_lines
select_lines-step start last idx src all_lines h = rw (line_number_lem idx h) refl

select_lines-past :
    (start last idx : ℕ) (all_lines : List Text)
    → idx + length all_lines < u32_size
    → last < idx + 1
    → select_lines start last idx all_lines ≡ []
unfolding select_lines
select_lines-past start last idx [] h past = refl
select_lines-past start last idx (src ∷ all_lines) h past =
    let gone : (leb start (idx + 1) && leb (idx + 1) last) ≡ false = ground arith in
    select_lines-step start last idx src all_lines (omega arith)
    ∙ rw gone (select_lines-past start last (idx + 1) all_lines (omega arith) (omega arith))

abbrev shown_line : ℕ → ℕ → Option Text → Option FileLine
shown_line last n src = if leb n last then map_some (numbered n) src else none

-- From a line of the window on.
select_lines-within :
    (start last idx i : ℕ) (all_lines : List Text)
    → idx + length all_lines < u32_size
    → start ≤ idx + 1
    → get_elem? (select_lines start last idx all_lines) i
      ≡ shown_line last (idx + 1 + i) (get_elem? all_lines i)
unfolding select_lines
select_lines-within start last idx i [] h from = ground arith
select_lines-within start last idx i (src ∷ all_lines) h from =
    elim (Bool-cases (leb (idx + 1) last)) [
      | inr past ↦
          let beyond : leb (idx + 1 + i) last ≡ false = ground (arith, past) in
          rw (select_lines-past start last idx (src ∷ all_lines) h (ground (arith, past)), beyond)
            refl
      | inl inside ↦
          let kept : (leb start (idx + 1) && leb (idx + 1) last) ≡ true = ground (arith, inside) in
          rw (select_lines-step start last idx src all_lines (omega arith), kept)
            (later i inside (λ j.
              select_lines-within start last (idx + 1) j all_lines (omega arith) (omega arith)))
    ]
  where
    later :
        (i : ℕ)
        → leb (idx + 1) last ≡ true
        → ((j : ℕ)
            → get_elem? (select_lines start last (idx + 1) all_lines) j
              ≡ shown_line last (idx + 1 + 1 + j) (get_elem? all_lines j))
        → get_elem? (numbered (idx + 1) src ∷ select_lines start last (idx + 1) all_lines) i
          ≡ shown_line last (idx + 1 + i) (get_elem? (src ∷ all_lines) i)
    later zero inside ih = let same : idx + 1 + 0 ≡ idx + 1 = omega arith in rw (same, inside) refl
    later (suc i) inside ih =
        ih i ∙ ap (λ n. shown_line last n (get_elem? all_lines i)) (omega arith)

-- Before the window.
select_lines-before :
    (start last idx i : ℕ) (all_lines : List Text)
    → idx + length all_lines < u32_size
    → idx + 1 ≤ start
    → get_elem? (select_lines start last idx all_lines) i
      ≡ shown_line last (start + i) (get_elem? all_lines (start + i - (idx + 1)))
unfolding select_lines
select_lines-before start last idx i [] h to = ground arith
select_lines-before start last idx i (src ∷ all_lines) h to =
    elim (Bool-cases (leb start (idx + 1))) [
      | inl reached ↦
          let here : start ≡ idx + 1 = ground (arith, reached) in
          let at : start + i - (idx + 1) ≡ i = ground (arith, reached) in
          select_lines-within start last idx i (src ∷ all_lines) h (ground (arith, reached))
          ∙ rw (at, here) refl
      | inr early ↦
          let skipped : (leb start (idx + 1) && leb (idx + 1) last) ≡ false = rw early refl in
          let at : start + i - (idx + 1) ≡ suc (start + i - (idx + 1 + 1)) =
            ground (arith, early) in
          rw (select_lines-step start last idx src all_lines (omega arith), skipped, at)
            (select_lines-before start last (idx + 1) i all_lines (omega arith)
              (ground (arith, early)))
    ]

line_window_lem :
    (line radius : Option ℕ) (total : ℕ)
    → (1 ≤ (line_window line radius total).0) × ((line_window line radius total).1 ≤ total)
unfolding line_window
line_window_lem (some line) (some radius) total = ground arith
line_window_lem (some line) none total = ground arith
line_window_lem none radius total = ground arith

-- Of a file of fewer than 2^32 lines, the slice starts at line 1 or later and ends at the last line
-- or earlier, and what it holds at `i` is the line of number `start_line + i` with that number,
-- while that is no later than `end_line`, and nothing after it.
pub slice_text_lem :
    (path : Text) (mtime : ℕ) (q : FileQuery) (text : Text) (i : ℕ)
    → length (lines text) < u32_size
    → let s = slice_text path mtime q text in
      (1 ≤ s.start_line)
      × (s.end_line ≤ length (lines text))
      × (get_elem? s.lines i ≡ (
          if leb (s.start_line + i) s.end_line
          then map_some
              (λ src. record { number = s.start_line + i; source = src })
              (get_elem? (lines text) (s.start_line + i - 1))
          else none))
unfolding slice_text
slice_text_lem path mtime q text i h =
    let total = length (lines text) % u32_size in
    let whole : total ≡ length (lines text) = omega arith in
    let window = line_window q.line q.radius total in
    let (low, high) = line_window_lem q.line q.radius total in
    (
      low,
      omega (arith, high, whole),
      select_lines-before window.0 window.1 0 i (lines text) (omega arith) low,
    )
