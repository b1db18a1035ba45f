-- ===== src/Insights/Slow.antt =====
-- daemon/src/insights.rs: `rank_slow_frames`.
use php_periscope.Common.{
  ℕ, zero, suc, ◌≤◌, List, [], ◌∷◌, ◌++◌, Bool, ◌≡◌, ◌∙◌, refl, ap, sym, subst, arith, ltb, length,
  take, drop, map, retain, count_where, inl, inr, ◌⊎◌,
}
use php_periscope.Common.Sort.{sort_by, IsSorted, IsSorted-sort_by, count_where-sort_by}
use php_periscope.Trace.{FrameJson}
use php_periscope.Insights.Report.{Platform}
use php_periscope.Insights.Detect.{rank_slow_frames, slow_frame_of, slower}

take-drop {ℓ} : {A : Type ℓ} (n : ℕ) (xs : List A) → take n xs ++ drop n xs ≡ xs
take-drop zero xs = refl
take-drop (suc n) [] = refl
take-drop (suc n) (x ∷ xs) = ap (λ l. x ∷ l) (take-drop n xs)

length-take {ℓ} :
    {A : Type ℓ} (n : ℕ) (xs : List A)
    → (length (take n xs) ≡ n) ⊎ ((length (take n xs) ≤ n) × (drop n xs ≡ []))
length-take zero xs = inl refl
length-take (suc n) [] = inr (omega arith, refl)
length-take (suc n) (x ∷ xs) = ground (arith, length-take n xs)

abbrev pub takes_time : FrameJson → Bool
takes_time f = ltb 0 f.duration_micros

-- The frames that are reported and those that are not: the slowest first, all that take time.
abbrev pub Ranked : List FrameJson → List FrameJson → List FrameJson → Type 0
Ranked frames listed rest =
    IsSorted slower (listed ++ rest)
    × ((p : FrameJson → Bool)
        → count_where p (listed ++ rest) ≡ count_where p (retain takes_time frames))
    × ((length listed ≡ 10) ⊎ ((length listed ≤ 10) × (rest ≡ [])))

module _ (std : Platform) where
  -- `rank_slow_frames` reports the slowest frames: the frames that take time, each as often as it
  -- occurs, can be put in descending order of their durations so that the first ten, or all when
  -- there are no more than ten, are exactly those reported, in this order.
  pub rank_slow_frames_lem :
      (frames : List FrameJson)
      → (listed : List FrameJson) × (rest : List FrameJson) × (rank_slow_frames std frames
          ≡ map (slow_frame_of std) listed)
        × Ranked frames listed rest
  unfolding rank_slow_frames
  rank_slow_frames_lem frames =
      let ranked = sort_by slower (retain takes_time frames) in
      let whole = take-drop 10 ranked in
      (
        take 10 ranked,
        drop 10 ranked,
        refl,
        (
          subst (IsSorted slower) (sym whole) (
              IsSorted-sort_by slower (λ x y. ground arith) (λ x y z p q. ground arith)
                (retain takes_time frames)),
          (λ p. ap (count_where p) whole ∙ count_where-sort_by slower p (retain takes_time frames)),
          length-take 10 ranked,
        ),
      )
