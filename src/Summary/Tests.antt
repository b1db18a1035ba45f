-- ===== src/Summary/Tests.antt =====
-- daemon/src/summary.rs: the theorems at two short traces.
use php_periscope.Common.{
  ℕ, none, [], ◌∷◌, ◌≡◌, ◌+◌, ◌%◌, count_where, length, leb, unwrap_or, list_eq,
}
use php_periscope.Common.Text.{Text, codes}
use php_periscope.Common.Maps.{get}
use php_periscope.Json.{
  Value, null, string, number, pos_int, object, field, end, Floats, get_str, value_get, as_str,
}
use php_periscope.Trace.{TraceJson, EventJson}
use php_periscope.Summary.Compute.{compute, arm_of}
use php_periscope.Summary.Folds.{usize_mod}
use php_periscope.Summary.Counts.{slow_queries, counter, counted, compute_levels}
use php_periscope.Summary.Sums.{sum_of, adds_models, adds_bytes}
use php_periscope.Summary.Totals.{compute_totals}

-- Every number reads as 100.0.
abbrev plain_floats : Floats
plain_floats = record {
  as_f64 = λ n. 4636737291354636288;
  add = λ a b. a + b;
  at_least = λ a b. leb b a;
}

abbrev happened : ℕ → Text → Value → EventJson
happened id tag payload = record {
  id = id;
  at_micros = id;
  in_frame_id = 1;
  type_tag = tag;
  payload = payload;
  user_call_site = none;
}

abbrev three : TraceJson
three = record {
  id = codes "t";
  meta = record {
    php_version = codes "8.3";
    periscope_version = codes "1";
    sapi = codes "cli";
    entry_point = [];
    working_dir = [];
    hostname = [];
    pid = 1;
    started_at_unix_micros = 0;
    duration_micros = 9;
    request = none;
    response = none;
  };
  frames = [];
  observability_events =
      happened 1 (codes "log") null
      ∷ happened 2 (codes "sql") null
      ∷ happened 3 (codes "log") (object (field (codes "level") (string (codes "error")) end))
      ∷ [];
}

-- A slow query, two models, a cache miss and a http call.
abbrev four : TraceJson
four = record three {
  observability_events =
      happened 1 (codes "sql") (object (field (codes "time_ms") (number (pos_int 120)) end))
      ∷ happened 2 (codes "model") (
          object (
            field (codes "class") (string (codes "User"))
              (field (codes "count") (number (pos_int 2)) end)))
      ∷ happened 3 (codes "cache") (object (field (codes "operation") (string (codes "miss")) end))
      ∷ happened 4 (codes "http")
          (object (field (codes "response_bytes") (number (pos_int 512)) end))
      ∷ [];
}

compute_totals_example :
    (counter slow_queries (compute plain_floats four)
      ≡ count_where (counted plain_floats slow_queries) four.observability_events)
    × ((compute plain_floats four).event_count ≡ length four.observability_events)
    × ((compute plain_floats four).models.hydrated_count
        ≡ sum_of adds_models four.observability_events % usize_mod)
    × ((compute plain_floats four).http.total_bytes
        ≡ sum_of adds_bytes four.observability_events % usize_mod)
compute_totals_example = compute_totals plain_floats slow_queries four

compute_levels_example :
    unwrap_or (get (compute plain_floats three).logs.by_level (codes "error")) 0 ≡ 1
unfolding arm_of get_str value_get as_str
compute_levels_example = compute_levels plain_floats (codes "error") three
