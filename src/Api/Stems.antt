-- ===== src/Api/Stems.antt =====
-- daemon/src/api.rs: the id that posted metrics are stored under has no slash.
use php_periscope.Common.{
  ℕ, Option, none, some, List, [], ◌∷◌, ◌++◌, ◌≡◌, refl, ◌∙◌, false, list_eq, All, Bool-cases,
  Option-cases, inl, inr, leb,
}
use php_periscope.Common.Text.{Text, codes}
use php_periscope.Common.Numbers.{show_nat}
use php_periscope.Api.Disk.{Disk, File, slash, has_char, read_dir, children, file_stem, member}
use php_periscope.Api.Metrics.{
  ClientMetricsBody, match_delta, match_loop, find_matching_trace, metrics_id,
}
use php_periscope.Api.Names.{
  IsPlain, has_char-append, no_slash_of_IsPlain, children-IsPlain, file_stem-no_slash,
  show_nat-no_slash,
}

only_no_slash :
    (p b : ℕ × Text) → has_char slash p.1 ≡ false → some p ≡ some b → has_char slash b.1 ≡ false
only_no_slash p b h e = let same : p ≡ b = cc e in rw (← same) h

-- What the loop finds has no slash.
match_loop-no_slash :
    (pid started : ℕ) (read : List (Text × File)) (best : Option (ℕ × Text)) (d : ℕ) (id : Text)
    → All (λ (e : Text × File). IsPlain e.0) read
    → ((b : ℕ × Text) → best ≡ some b → has_char slash b.1 ≡ false)
    → match_loop pid started read best ≡ some (d, id)
    → has_char slash id ≡ false
unfolding match_loop
match_loop-no_slash pid started [] best d id plain before e = before (d, id) e
match_loop-no_slash pid started ((name, file) ∷ read) best d id (here, plain) before e =
    let fresh = file_stem-no_slash name (no_slash_of_IsPlain name here) in
    elim (Option-cases (match_delta pid started (name, file))) [
      | inl passed ↦
          match_loop-no_slash pid started read best d id plain before (rw (match_loop, passed) at e)
      | inr (delta, near) ↦ elim (Option-cases best) [
        | inl first ↦
            match_loop-no_slash pid started read (some (delta, file_stem name)) d id plain
              (λ b. only_no_slash (delta, file_stem name) b fresh)
              (rw (match_loop, near, first) at e)
        | inr ((bd, old), had) ↦ elim (Bool-cases (leb bd delta)) [
          | inl keep ↦
              match_loop-no_slash pid started read (some (bd, old)) d id plain
                (λ b same. before b (had ∙ same)) (rw (match_loop, near, had, keep) at e)
          | inr better ↦
              match_loop-no_slash pid started read (some (delta, file_stem name)) d id plain
                (λ b. only_no_slash (delta, file_stem name) b fresh)
                (rw (match_loop, near, had, better) at e)
        ]
      ]
    ]

find_matching_trace-no_slash :
    (disk : Disk) (dir : Text) (pid started : ℕ) (id : Text)
    → find_matching_trace disk dir pid started ≡ some id
    → has_char slash id ≡ false
unfolding find_matching_trace read_dir
find_matching_trace-no_slash disk dir pid started id e = elim (Bool-cases (member dir disk.dirs)) [
  | inr missing ↦ absurd (cc (rw (find_matching_trace, read_dir, missing) at e))
  | inl there ↦ elim (Option-cases (match_loop pid started (children dir disk.files) none)) [
    | inl gone ↦ absurd (cc (rw (find_matching_trace, read_dir, there, gone) at e))
    | inr ((d, best), found) ↦
        let same : best ≡ id = cc (rw (find_matching_trace, read_dir, there, found) at e) in
        rw (← same) (
          match_loop-no_slash pid started (children dir disk.files) none d best
            (children-IsPlain dir disk.files) (λ b no. absurd (cc no)) found)
  ]
]

pub metrics_id-no_slash :
    (disk : Disk) (dir : Text) (body : ClientMetricsBody)
    → has_char slash (metrics_id disk dir body) ≡ false
unfolding metrics_id
metrics_id-no_slash disk dir body =
    let pid = show_nat body.pid in
    let started = show_nat body.started_at_unix_micros in
    elim (Option-cases (find_matching_trace disk dir body.pid body.started_at_unix_micros)) [
      | inr (id, found) ↦
          rw (found)
            (find_matching_trace-no_slash disk dir body.pid body.started_at_unix_micros id found)
      | inl gone ↦
          rw
            (
              gone,
              has_char-append slash (pid ++ codes "-") started,
              has_char-append slash pid (codes "-"),
              show_nat-no_slash body.pid,
              show_nat-no_slash body.started_at_unix_micros,
            )
            refl
    ]
