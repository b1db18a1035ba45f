-- ===== src/Insights/Loops.antt =====
-- daemon/src/insights.rs: `detect_db_in_loop` against the queries of each frame.
use php_periscope.Common.{
  ℕ, suc, ◌+◌, Option, none, some, List, [], ◌∷◌, Bool, ◌≡◌, refl, ◌∙◌, arith, ◌&&◌, ◌==◌, nat_eq,
  if◌then◌else◌, nat_beq, leb, count_where, unwrap_or, Bool-cases, inl, inr, nat_beq_iff,
}
use php_periscope.Common.Sort.{count_where-sort_by}
use php_periscope.Common.Maps.{
  Map, get, entry, get-entry, HasUnique, HasUnique-entry, count_where-get,
}
use php_periscope.Trace.{FrameJson, EventJson}
use php_periscope.Insights.Report.{Platform, DbInLoopInsight}
use php_periscope.Insights.Detect.{
  is_sql, queries_by_frame, frame_lookup, filter_map, db_in_loop_of, detect_db_in_loop,
}

-- The event is a query that the frame made itself.
abbrev pub is_query_of : ℕ → EventJson → Bool
is_query_of id e = is_sql e && nat_beq e.in_frame_id id

HasUnique-queries_by_frame :
    (events : List EventJson) (m : Map ℕ ℕ) → HasUnique m → HasUnique (queries_by_frame events m)
unfolding queries_by_frame
HasUnique-queries_by_frame [] m h = h
HasUnique-queries_by_frame (e ∷ events) m h = elim (Bool-cases (is_sql e)) [
  | inl query ↦ rw query (
      HasUnique-queries_by_frame events (entry e.in_frame_id 0 suc m)
        (HasUnique-entry e.in_frame_id 0 suc m h))
  | inr other ↦ rw other (HasUnique-queries_by_frame events m h)
]

get-queries_by_frame :
    (id : ℕ) (events : List EventJson) (m : Map ℕ ℕ)
    → unwrap_or (get (queries_by_frame events m) id) 0
      ≡ count_where (is_query_of id) events + unwrap_or (get m id) 0
unfolding queries_by_frame
get-queries_by_frame id [] m = omega arith
get-queries_by_frame id (e ∷ events) m = elim (Bool-cases (is_sql e)) [
  | inl query ↦ rw query (
      ground (
        arith,
        get-queries_by_frame id events (entry e.in_frame_id 0 suc m),
        get-entry e.in_frame_id id 0 suc m,
        nat_beq_iff e.in_frame_id id,
      ))
  | inr other ↦ rw other (omega (arith, get-queries_by_frame id events m))
]

threshold_lem :
    (found : Option ℕ) (n q : ℕ)
    → unwrap_or found 0 ≡ q
    → elim found as (λ x. ℕ) [ none ↦ 0 | some c ↦ if nat_beq c n && leb 5 c then 1 else 0 ]
      ≡ (if nat_beq n q && leb 5 n then 1 else 0)
threshold_lem none n q h = ground arith
threshold_lem (some c) n q h = ground arith

module _ (std : Platform) where
  -- The insight is about the frame and has the number.
  abbrev pub is_insight : ℕ → ℕ → DbInLoopInsight → Bool
  is_insight id n i = nat_beq i.frame_id id && nat_beq i.query_count n

  -- The entry of a frame that is reported with the number.
  abbrev is_reported : ℕ → ℕ → ℕ × ℕ → Bool
  is_reported id n p = p.0 == id && (nat_beq p.1 n && leb 5 p.1)

  count_where-filter_map :
      (id n : ℕ) (lookup : Map ℕ FrameJson) (xs : List (ℕ × ℕ))
      → count_where (is_insight id n) (filter_map std (db_in_loop_of std lookup) xs)
        ≡ count_where (is_reported id n) xs
  unfolding filter_map db_in_loop_of
  count_where-filter_map id n lookup [] = refl
  count_where-filter_map id n lookup ((k, c) ∷ xs) =
      ground (arith, count_where-filter_map id n lookup xs)

  -- Whatever the order in which the map yields its entries, each once, `detect_db_in_loop`
  -- reports a frame once, with the number of the queries that the frame made itself, when these
  -- are at least five, and else not at all: for each frame id and number, the insights with both
  -- are one or none.
  pub detect_db_in_loop_lem :
      (frames : List FrameJson) (events : List EventJson) (id n : ℕ)
      → ((xs : List (ℕ × ℕ)) (p : ℕ × ℕ → Bool)
          → count_where p (std.into_iter xs) ≡ count_where p xs)
      → count_where (is_insight id n) (detect_db_in_loop std frames events)
        ≡ (if nat_beq n (count_where (is_query_of id) events) && leb 5 n then 1 else 0)
  unfolding detect_db_in_loop get
  detect_db_in_loop_lem frames events id n fair =
      let m = queries_by_frame events [] in
      let lookup = frame_lookup frames [] in
      let last : count_where (is_query_of id) events + unwrap_or (get {V = ℕ} [] id) 0
          ≡ count_where (is_query_of id) events =
        omega arith in
      count_where-sort_by _ (is_insight id n)
        (filter_map std (db_in_loop_of std lookup) (std.into_iter m))
      ∙ count_where-filter_map id n lookup (std.into_iter m)
      ∙ fair m (is_reported id n)
      ∙ count_where-get id (λ c. nat_beq c n && leb 5 c) m (HasUnique-queries_by_frame events [] tt)
      ∙ threshold_lem (get m id) n (count_where (is_query_of id) events)
          (get-queries_by_frame id events [] ∙ last)
