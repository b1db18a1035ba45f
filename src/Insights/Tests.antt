-- ===== src/Insights/Tests.antt =====
-- daemon/src/insights.rs: the theorem at three frames.
use php_periscope.Common.{
  refl, ℕ, none, List, [], ◌∷◌, ◌≡◌, ◌+◌, leb, ltb, map, false, count_where, refl,
}
use php_periscope.Common.Text.{codes}
use php_periscope.Json.{null}
use php_periscope.Trace.{FrameJson, EventJson}
use php_periscope.Insights.Report.{Platform}
use php_periscope.Insights.Detect.{rank_slow_frames, slow_frame_of, detect_db_in_loop}
use php_periscope.Insights.Loops.{is_insight, detect_db_in_loop_lem}
use php_periscope.Insights.Slow.{Ranked, rank_slow_frames_lem}

abbrev std : Platform
std = record {
  floats = record { as_f64 = λ n. 0; add = λ a b. a + b; at_least = λ a b. leb b a };
  less = ltb;
  thousandth = λ n. n;
  show_nat = λ n. [];
  show_rounded = λ f. [];
  is_whitespace = λ c. false;
  into_iter = λ l. l;
}

abbrev took : ℕ → ℕ → FrameJson
took id micros = record {
  id = id;
  parent_id = 0;
  function = codes "f";
  file = codes "f.php";
  line = 1;
  enter_micros = 0;
  exit_micros = micros;
  duration_micros = micros;
  depth = 0;
  flags = 0;
  args_summary = none;
  return_value_summary = none;
  observability_event_ids = [];
}

abbrev frames : List FrameJson
frames = took 1 5 ∷ took 2 0 ∷ took 3 8 ∷ []

rank_slow_frames_lem_example :
    (listed : List FrameJson) × (rest : List FrameJson) × (rank_slow_frames std frames
      ≡ map (slow_frame_of std) listed)
    × Ranked frames listed rest
rank_slow_frames_lem_example = rank_slow_frames_lem std frames

abbrev query : ℕ → EventJson
query id = record {
  id = id;
  at_micros = id;
  in_frame_id = 3;
  type_tag = codes "sql";
  payload = null;
  user_call_site = none;
}

abbrev five_queries : List EventJson
five_queries = query 1 ∷ query 2 ∷ query 3 ∷ query 4 ∷ query 5 ∷ []

detect_db_in_loop_lem_example :
    count_where (is_insight std 3 5) (detect_db_in_loop std frames five_queries) ≡ 1
detect_db_in_loop_lem_example = detect_db_in_loop_lem std frames five_queries 3 5 (λ xs p. refl)
