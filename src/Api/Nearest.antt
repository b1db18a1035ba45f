-- ===== src/Api/Nearest.antt =====
-- daemon/src/api.rs: which trace `find_matching_trace` picks.
use php_periscope.Common.{
  ℕ, suc, ◌≤◌, ◌<◌, none, some, List, [], ◌∷◌, ◌≡◌, refl, ap, arith, leb, leb_iff, ◌++◌, Bool-cases,
  Option-cases, inl, inr, ◌⊎◌, All,
}
use php_periscope.Common.Text.{Text}
use php_periscope.Common.Results.{ok}
use php_periscope.Api.Disk.{Disk, File, read_dir, file_stem}
use php_periscope.Api.Metrics.{match_delta, match_loop, find_matching_trace, window_micros}

module _ (pid started : ℕ) where
  -- Every entry that the search considers is at least as far as a distance.
  abbrev pub NoCloser : ℕ → Text × File → Type 0
  NoCloser d e = (δ : ℕ) → match_delta pid started e ≡ some δ → d ≤ δ

  -- The first of the entries at the least distance: those before it are farther, and those after
  -- it no closer.
  pub record IsNearest (entries : List (Text × File)) (d : ℕ) (id : Text) : Type 0 where
    pub before : List (Text × File)
    pub entry : Text × File
    pub after : List (Text × File)
    pub whole : entries ≡ before ++ entry ∷ after
    pub named : file_stem entry.0 ≡ id
    pub near : match_delta pid started entry ≡ some d
    pub farther : All (NoCloser (suc d)) before
    pub no_closer : All (NoCloser d) after

  found_at : (e : Text × File) (δ d : ℕ) → match_delta pid started e ≡ some δ → d ≤ δ → NoCloser d e
  found_at e δ d near le δ' near' = let same : δ ≡ δ' = cc (near, near') in omega (arith, same, le)

  passed_over : (e : Text × File) (d : ℕ) → match_delta pid started e ≡ none → NoCloser d e
  passed_over e d passed δ near = absurd (cc (passed, near))

  extend :
      (e : Text × File) (entries : List (Text × File)) (d : ℕ) (id : Text)
      → NoCloser (suc d) e
      → IsNearest entries d id
      → IsNearest (e ∷ entries) d id
  extend e entries d id far n = record {
    before = e ∷ n.before;
    entry = n.entry;
    after = n.after;
    whole = ap (λ es. e ∷ es) n.whole;
    named = n.named;
    near = n.near;
    farther = (far, n.farther);
    no_closer = n.no_closer;
  }

  here-IsNearest :
      (e : Text × File) (entries : List (Text × File)) (d : ℕ)
      → match_delta pid started e ≡ some d
      → All (NoCloser d) entries
      → IsNearest (e ∷ entries) d (file_stem e.0)
  here-IsNearest e entries d near rest = record {
    before = [];
    entry = e;
    after = entries;
    whole = refl;
    named = refl;
    near = near;
    farther = tt;
    no_closer = rest;
  }

  -- The loop with a best: it is kept, or a closer entry is found.
  with_best :
      (entries : List (Text × File)) (bd : ℕ) (old : Text)
      → (d : ℕ) × (id : Text) × (match_loop pid started entries (some (bd, old)) ≡ some (d, id))
        × (((bd ≡ d) × (old ≡ id) × All (NoCloser bd) entries)
            ⊎ ((d < bd) × IsNearest entries d id))
  unfolding match_loop
  with_best [] bd old = (bd, old, refl, inl (refl, refl, tt))
  with_best (e ∷ entries) bd old = elim (Option-cases (match_delta pid started e)) [
    | inl passed ↦
        let (d, id, run, out) = with_best entries bd old in
        (
          d,
          id,
          rw (match_loop, passed) run,
          elim out [
            | inl (same, named, rest) ↦ inl (same, named, (passed_over e bd passed, rest))
            | inr (closer, n) ↦ inr (closer, extend e entries d id (passed_over e (suc d) passed) n)
          ],
        )
    | inr (δ, near) ↦ elim (Bool-cases (leb bd δ)) [
      | inl keep ↦
          let (d, id, run, out) = with_best entries bd old in
          (
            d,
            id,
            rw (match_loop, near, keep) run,
            elim out [
              | inl (same, named, rest) ↦
                  inl (same, named, (found_at e δ bd near ((leb_iff bd δ).0 keep), rest))
              | inr (closer, n) ↦ inr (
                closer,
                extend e entries d id (found_at e δ (suc d) near (ground (arith, keep, closer))) n,
              )
            ],
          )
      | inr better ↦
          let (d, id, run, out) = with_best entries δ (file_stem e.0) in
          (
            d,
            id,
            rw (match_loop, near, better) run,
            elim out [
              | inl (same, named, rest) ↦ inr (
                ground (arith, better, same),
                rw (← same, ← named) (here-IsNearest e entries δ near rest),
              )
              | inr (closer, n) ↦ inr (
                ground (arith, better, closer),
                extend e entries d id (found_at e δ (suc d) near closer) n,
              )
            ],
          )
    ]
  ]

  without_best :
      (entries : List (Text × File))
      → (All (λ e. match_delta pid started e ≡ none) entries
          × (match_loop pid started entries none ≡ none))
        ⊎ ((d : ℕ) × (id : Text) × (match_loop pid started entries none ≡ some (d, id))
            × IsNearest entries d id)
  unfolding match_loop
  without_best [] = inl (tt, refl)
  without_best (e ∷ entries) = elim (Option-cases (match_delta pid started e)) [
    | inl passed ↦ elim (without_best entries) [
      | inl (none_near, run) ↦ inl ((passed, none_near), rw (match_loop, passed) run)
      | inr (d, id, run, n) ↦ inr (
        d,
        id,
        rw (match_loop, passed) run,
        extend e entries d id (passed_over e (suc d) passed) n,
      )
    ]
    | inr (δ, near) ↦
        let (d, id, run, out) = with_best entries δ (file_stem e.0) in
        inr (
          d,
          id,
          rw (match_loop, near) run,
          elim out [
            | inl (same, named, rest) ↦ rw (← same, ← named) (here-IsNearest e entries δ near rest)
            | inr (closer, n) ↦ extend e entries d id (found_at e δ (suc d) near closer) n
          ],
        )
  ]

  match_delta_lem :
      (e : Text × File) (d : ℕ) → match_delta pid started e ≡ some d → d ≤ window_micros
  unfolding match_delta
  match_delta_lem (name, file) d near = ground (arith, near)

-- The entries of the directory, when it can be read: either none of them has a name, of a trace with
-- the hinted process where the hint names one, that starts with a time at most two seconds from
-- the hint, and nothing is found; or the trace found is the entry whose time is closest to the
-- hint, the first of them where several are, and it is no more than two seconds away.
pub find_matching_trace_lem :
    (disk : Disk) (dir : Text) (pid started : ℕ) (entries : List (Text × File))
    → read_dir disk dir ≡ ok entries
    → (All (λ e. match_delta pid started e ≡ none) entries
        × (find_matching_trace disk dir pid started ≡ none))
      ⊎ ((d : ℕ) × (id : Text) × (find_matching_trace disk dir pid started ≡ some id)
          × (d ≤ window_micros)
          × IsNearest pid started entries d id)
unfolding find_matching_trace
find_matching_trace_lem disk dir pid started entries listed =
    elim (without_best pid started entries) [
      | inl (none_near, run) ↦ inl (none_near, rw (find_matching_trace, listed, run) refl)
      | inr (d, id, run, n) ↦ inr (
        d,
        id,
        rw (find_matching_trace, listed, run) refl,
        match_delta_lem pid started n.entry d n.near,
        n,
      )
    ]
