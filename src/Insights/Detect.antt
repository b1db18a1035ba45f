-- ===== src/Insights/Detect.antt =====
-- daemon/src/insights.rs: the detectors that count into a `HashMap`, and `compute`.
use php_periscope.Common.{
  ℕ, suc, ◌+◌, Option, none, some, List, [], ◌∷◌, ◌++◌, Bool, ◌==◌, list_eq, nat_eq, pair_eq,
  if◌then◌else◌, leb, ltb, length, take, map, retain, unwrap_or, map_some, and_then, ◌&&◌, not,
}
use php_periscope.Common.Sort.{sort_by}
use php_periscope.Common.Text.{Text, codes}
use php_periscope.Common.Maps.{Map, get, insert, entry}
use php_periscope.Json.{Float, get_str, get_f64}
use php_periscope.Trace.{TraceJson, EventJson, FrameJson, CallSiteJson}
use php_periscope.Insights.Sql.{normalise_sql}
use php_periscope.Insights.Report.{
  NPlusOneInsight, SlowFrameInsight, DbInLoopInsight, SerialHttpInsight, CacheMissInsight,
  SlowQueryInsight, Insights, Platform,
}

abbrev pub is_sql : EventJson → Bool
is_sql e = e.type_tag == codes "sql"

-- `frames.iter().map(|f| (f.id, f)).collect()`: the last frame of an id.
unfoldable pub frame_lookup : List FrameJson → Map ℕ FrameJson → Map ℕ FrameJson
frame_lookup [] m = m
frame_lookup (f ∷ frames) m = frame_lookup frames (insert f.id f m)

-- The loop of `detect_db_in_loop`: the number of queries of each frame.
unfoldable pub queries_by_frame : List EventJson → Map ℕ ℕ → Map ℕ ℕ
queries_by_frame [] m = m
queries_by_frame (e ∷ events) m =
    queries_by_frame events (if is_sql e then entry e.in_frame_id 0 suc m else m)

-- The key of a cache miss, when the event is one.
unfoldable pub missed_key : EventJson → Option Text
missed_key e =
    if e.type_tag == codes "cache"
      && unwrap_or (get_str e.payload (codes "operation")) [] == codes "miss"
    then elim (unwrap_or (get_str e.payload (codes "key")) []) [ [] ↦ none | c ∷ s ↦ some (c ∷ s) ]
    else none

unfoldable pub misses_by_key : List EventJson → Map Text ℕ → Map Text ℕ
misses_by_key [] m = m
misses_by_key (e ∷ events) m =
    misses_by_key events (elim (missed_key e) [ none ↦ m | some key ↦ entry key 0 suc m ])

abbrev pub slower : FrameJson → FrameJson → Bool
slower a b = leb b.duration_micros a.duration_micros

module _ (std : Platform) where
  open std use {floats, less, thousandth, show_nat, show_rounded, is_whitespace, into_iter}

  abbrev pub at_least : Float → Float → Bool
  at_least = floats.at_least

  -- The bucket of an event in `detect_n_plus_one`: its query's shape and its frame.
  unfoldable pub bucket_key : EventJson → Option (Text × ℕ)
  bucket_key e =
      if is_sql e
      then elim (unwrap_or (get_str e.payload (codes "sql")) []) [
        | [] ↦ none
        | c ∷ s ↦ some (normalise_sql is_whitespace (c ∷ s), e.in_frame_id)
      ]
      else none

  unfoldable pub buckets :
      List EventJson → Map (Text × ℕ) (List EventJson) → Map (Text × ℕ) (List EventJson)
  buckets [] m = m
  buckets (e ∷ events) m =
      buckets events
        (elim (bucket_key e) [ none ↦ m | some key ↦ entry key [] (λ evs. evs ++ e ∷ []) m ])

  abbrev pub where_str : Option CallSiteJson → Text
  where_str none = []
  where_str (some cs) = codes " at " ++ cs.file ++ codes ":" ++ show_nat cs.line

  -- One round of the loop over the buckets.
  unfoldable pub n_plus_one_of : (Text × ℕ) × List EventJson → Option NPlusOneInsight
  n_plus_one_of (key, []) = none
  n_plus_one_of ((pattern, frame_id), first ∷ evs) =
      if ltb (length (first ∷ evs)) 4
      then none
      else some (record {
        pattern = pattern;
        count = length (first ∷ evs);
        first_event_id = first.id;
        frame_id = frame_id;
        call_site_file = map_some (λ cs. cs.file) first.user_call_site;
        call_site_line = map_some (λ cs. cs.line) first.user_call_site;
        recommendation =
            codes "Same query ran "
            ++ show_nat (length (first ∷ evs))
            ++ codes "× from one frame"
            ++ where_str first.user_call_site
            ++ codes ". Eager-load the relation (->with('...')) or chunk the parent collection.";
      })

  unfoldable pub filter_map {ℓ κ} : {A : Type ℓ} {B : Type κ} → (A → Option B) → List A → List B
  filter_map f [] = []
  filter_map f (x ∷ xs) =
      let rest = filter_map f xs in elim (f x) [ none ↦ rest | some y ↦ y ∷ rest ]

  unfoldable pub detect_n_plus_one : List EventJson → List NPlusOneInsight
  detect_n_plus_one events =
      sort_by (λ a b. leb b.count a.count)
        (filter_map n_plus_one_of (into_iter (buckets events [])))

  abbrev pub slow_frame_of : FrameJson → SlowFrameInsight
  slow_frame_of f = record {
    frame_id = f.id;
    function = f.function;
    file = f.file;
    line = f.line;
    duration_micros = f.duration_micros;
    recommendation =
        if ltb 200000 f.duration_micros
        then f.function
          ++ codes " dominates the request ("
          ++ show_rounded (thousandth f.duration_micros)
          ++ codes "ms). Profile its body or consider caching its result."
        else f.function
          ++ codes " took "
          ++ show_rounded (thousandth f.duration_micros)
          ++ codes "ms — review if this is on the hot path.";
  }

  unfoldable pub rank_slow_frames : List FrameJson → List SlowFrameInsight
  rank_slow_frames frames =
      map slow_frame_of (take 10 (sort_by slower (retain (λ f. ltb 0 f.duration_micros) frames)))

  unfoldable pub db_in_loop_of : Map ℕ FrameJson → ℕ × ℕ → Option DbInLoopInsight
  db_in_loop_of lookup (frame_id, count) =
      if leb 5 count
      then some (record {
        frame_id = frame_id;
        function =
            unwrap_or (map_some (λ f. f.function) (get lookup frame_id))
              (codes "frame#" ++ show_nat frame_id);
        query_count = count;
        recommendation =
            show_nat count
            ++ codes
                " queries fired inside one frame — chunk, batch, or eager-load to avoid per-iteration round-trips.";
      })
      else none

  unfoldable pub detect_db_in_loop : List FrameJson → List EventJson → List DbInLoopInsight
  detect_db_in_loop frames events =
      sort_by (λ a b. leb b.query_count a.query_count)
        (filter_map (db_in_loop_of (frame_lookup frames []))
          (into_iter (queries_by_frame events [])))

  -- The calls of each frame and their time; `0.0` is the bit pattern 0.
  unfoldable pub http_by_frame : List EventJson → Map ℕ (ℕ × Float) → Map ℕ (ℕ × Float)
  http_by_frame [] m = m
  http_by_frame (e ∷ events) m =
      let dur_ms = unwrap_or (get_f64 floats e.payload (codes "duration_ms")) 0 in
      let counted = entry e.in_frame_id (0, 0) (λ (n, total). (n + 1, floats.add total dur_ms)) m in
      http_by_frame events (if e.type_tag == codes "http" then counted else m)

  -- 100.0, as its 64 bits
  abbrev pub threshold_ms : Float
  threshold_ms = 4636737291354636288

  unfoldable pub serial_http_of : Map ℕ FrameJson → ℕ × (ℕ × Float) → Option SerialHttpInsight
  serial_http_of lookup (frame_id, (count, total)) =
      if leb 3 count && at_least total threshold_ms
      then some (record {
        frame_id = frame_id;
        function = unwrap_or (map_some (λ f. f.function) (get lookup frame_id)) [];
        call_count = count;
        total_ms = total;
        recommendation =
            show_nat count
            ++ codes " HTTP calls totaling "
            ++ show_rounded total
            ++ codes "ms ran serially. Use Http::pool() to fan out concurrently.";
      })
      else none

  unfoldable pub detect_serial_http : List FrameJson → List EventJson → List SerialHttpInsight
  detect_serial_http frames events =
      sort_by (λ a b. not (less a.total_ms b.total_ms))
        (filter_map (serial_http_of (frame_lookup frames [])) (into_iter (http_by_frame events [])))

  unfoldable pub cache_miss_of : Text × ℕ → Option CacheMissInsight
  cache_miss_of (key, count) =
      if leb 5 count
      then some (record {
        key = key;
        miss_count = count;
        recommendation =
            show_nat count
            ++ codes
                " consecutive misses on the same key — confirm the key is being written somewhere on the hot path.";
      })
      else none

  unfoldable pub detect_cache_miss_storm : List EventJson → List CacheMissInsight
  detect_cache_miss_storm events =
      sort_by (λ a b. leb b.miss_count a.miss_count)
        (filter_map cache_miss_of (into_iter (misses_by_key events [])))

  unfoldable pub slow_query_of : EventJson → Option SlowQueryInsight
  slow_query_of e =
      if is_sql e
      then and_then (get_f64 floats e.payload (codes "time_ms")) (λ time_ms.
        if less time_ms threshold_ms
        then none
        else some (record {
          event_id = e.id;
          sql = unwrap_or (get_str e.payload (codes "sql")) [];
          time_ms = time_ms;
          recommendation =
              codes "Query took "
              ++ show_rounded time_ms
              ++ codes "ms. Add an index, paginate the result set, or cache the response.";
        }))
      else none

  unfoldable pub detect_slow_queries : List EventJson → List SlowQueryInsight
  detect_slow_queries events =
      sort_by (λ a b. not (less a.time_ms b.time_ms)) (filter_map slow_query_of events)

  unfoldable pub compute : TraceJson → Insights
  compute trace = record {
    n_plus_one = detect_n_plus_one trace.observability_events;
    slow_frames = rank_slow_frames trace.frames;
    memory_hogs = [];
    db_in_loop = detect_db_in_loop trace.frames trace.observability_events;
    serial_http = detect_serial_http trace.frames trace.observability_events;
    cache_miss_storm = detect_cache_miss_storm trace.observability_events;
    slow_queries = detect_slow_queries trace.observability_events;
  }
