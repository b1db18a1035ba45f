-- ===== src/Summary/Counts.antt =====
-- daemon/src/summary.rs: the counters of `compute` against the events.
use php_periscope.Common.{
  ℕ, suc, ◌+◌, List, [], ◌∷◌, Bool, true, false, ◌==◌, list_eq, ◌≡◌, ◌∙◌, refl, arith,
  if◌then◌else◌, count_where, none, some, nat_beq, unwrap_or, ◌&&◌,
}
use php_periscope.Common.Text.{Text, codes}
use php_periscope.Common.Maps.{get, get-entry}
use php_periscope.Json.{Floats, get_str, get_f64}
use php_periscope.Trace.{TraceJson, EventJson}
use php_periscope.Summary.Report.{Summary}
use php_periscope.Summary.Folds.{
  fold_log, fold_sql, fold_cache, slow_ms, fold_job, fold_event, fold_http, fold_mail,
  fold_notification, fold_exception, tally_one,
}
use php_periscope.Summary.Compute.{
  Kind, sql, log, model, cache, job, event, http, mail, notification, exception, n_plus_one, other,
  kind_of, fold_kind, fold_events, compute, start,
}

-- The arms of the `match` as numbers.
abbrev pub number_of : Kind → ℕ
number_of sql = 0
number_of model = 1
number_of cache = 2
number_of log = 3
number_of job = 4
number_of event = 5
number_of http = 6
number_of mail = 7
number_of notification = 8
number_of exception = 9
number_of n_plus_one = 10
number_of other = 11

-- The event comes to the arm.
abbrev pub comes_to : Kind → EventJson → Bool
comes_to kind e = nat_beq (number_of (kind_of e)) (number_of kind)

-- The counters of the summary that count events.
pub data Counter : Type 0 where
  queries : Counter
  slow_queries : Counter
  n_plus_ones : Counter
  cache_hits : Counter
  cache_misses : Counter
  cache_writes : Counter
  cache_forgets : Counter
  log_lines : Counter
  jobs_run : Counter
  events_fired : Counter
  http_calls : Counter
  mails_sent : Counter
  notifications_sent : Counter
  exceptions_thrown : Counter

abbrev pub counter : Counter → Summary → ℕ
counter queries s = s.queries.count
counter slow_queries s = s.queries.slow_count
counter n_plus_ones s = s.queries.n_plus_one_count
counter cache_hits s = s.cache.hits
counter cache_misses s = s.cache.misses
counter cache_writes s = s.cache.writes
counter cache_forgets s = s.cache.forgets
counter log_lines s = s.logs.count
counter jobs_run s = s.jobs.count
counter events_fired s = s.events.count
counter http_calls s = s.http.count
counter mails_sent s = s.mail.count
counter notifications_sent s = s.notifications.count
counter exceptions_thrown s = s.exceptions.count

-- What a cache event says it did.
abbrev pub did : Text → EventJson → Bool
did op e = unwrap_or (get_str e.payload (codes "operation")) [] == op

-- Two operations are not one: no event counts twice.
did_one : (a b : Text) (e : EventJson) → (a == b) ≡ false → did a e ≡ true → did b e ≡ false
did_one a b e apart h =
    let op = unwrap_or (get_str e.payload (codes "operation")) [] in
    ground (arith, list_eq.same_iff op a, list_eq.same_iff op b, list_eq.same_iff a b)

module _ (floats : Floats) where
  -- The event says how long it took, and that is at least 100 ms.
  abbrev pub is_slow : EventJson → Bool
  is_slow e = elim (get_f64 floats e.payload (codes "time_ms")) [
    | none ↦ false
    | some ms ↦ floats.at_least ms (slow_ms floats)
  ]

  -- The arm that a counter stands in, and what else it asks of an event that comes there.
  abbrev pub arm_for : Counter → Kind
  arm_for queries = sql
  arm_for slow_queries = sql
  arm_for n_plus_ones = n_plus_one
  arm_for cache_hits = cache
  arm_for cache_misses = cache
  arm_for cache_writes = cache
  arm_for cache_forgets = cache
  arm_for log_lines = log
  arm_for jobs_run = job
  arm_for events_fired = event
  arm_for http_calls = http
  arm_for mails_sent = mail
  arm_for notifications_sent = notification
  arm_for exceptions_thrown = exception

  abbrev pub asks : Counter → EventJson → Bool
  asks slow_queries e = is_slow e
  asks cache_hits e = did (codes "hit") e
  asks cache_misses e = did (codes "miss") e
  asks cache_writes e = did (codes "write") e
  asks cache_forgets e = did (codes "forget") e
  asks _ e = true

  -- The events that a counter counts.
  abbrev pub counted : Counter → EventJson → Bool
  counted c e = comes_to (arm_for c) e && asks c e

  counter-fold_cache :
      (c : Counter) (e : EventJson) (s : Summary)
      → number_of (arm_for c) ≡ 2
      → counter c (record s { cache = fold_cache e s.cache })
        ≡ (if asks c e then 1 else 0) + counter c s
  unfolding fold_cache
  counter-fold_cache cache_hits e s h = ground arith
  counter-fold_cache cache_misses e s h =
      ground (arith, did_one (codes "miss") (codes "hit") e refl)
  counter-fold_cache cache_writes e s h = ground (
    arith,
    did_one (codes "write") (codes "hit") e refl,
    did_one (codes "write") (codes "miss") e refl,
  )
  counter-fold_cache cache_forgets e s h = ground (
    arith,
    did_one (codes "forget") (codes "hit") e refl,
    did_one (codes "forget") (codes "miss") e refl,
    did_one (codes "forget") (codes "write") e refl,
  )
  counter-fold_cache c e s h = absurd (omega (arith, h))

  counter-fold_kind :
      (c : Counter) (met : Kind) (e : EventJson) (s : Summary)
      → counter c (fold_kind floats met e s)
        ≡ (if nat_beq (number_of met) (number_of (arm_for c)) && asks c e then 1 else 0)
          + counter c s
  unfolding fold_kind fold_log fold_sql fold_job fold_event fold_http fold_mail fold_notification
      fold_exception
  counter-fold_kind c met e s = ground (arith, counter-fold_cache c e s)

  pub counter-fold_events :
      (c : Counter) (events : List EventJson) (s : Summary)
      → counter c (fold_events floats events s) ≡ count_where (counted c) events + counter c s
  unfolding fold_events
  counter-fold_events c [] s = omega arith
  counter-fold_events c (e ∷ events) s = omega (
    arith,
    counter-fold_events c events (fold_kind floats (kind_of e) e s),
    counter-fold_kind c (kind_of e) e s,
  )

  event_count-fold_kind :
      (met : Kind) (e : EventJson) (s : Summary)
      → (fold_kind floats met e s).event_count ≡ s.event_count
  unfolding fold_kind
  event_count-fold_kind met e s = ground arith

  pub event_count-fold_events :
      (events : List EventJson) (s : Summary)
      → (fold_events floats events s).event_count ≡ s.event_count
  unfolding fold_events
  event_count-fold_events [] s = refl
  event_count-fold_events (e ∷ events) s =
      event_count-fold_events events (fold_kind floats (kind_of e) e s)
      ∙ event_count-fold_kind (kind_of e) e s

  pub counter-start : (c : Counter) (trace : TraceJson) → counter c (start floats trace) ≡ 0
  unfolding start
  counter-start c trace = ground arith

  -- The level of a log event.
  abbrev pub level_of : EventJson → Text
  level_of e = unwrap_or (get_str e.payload (codes "level")) (codes "info")

  abbrev pub is_log_at : Text → EventJson → Bool
  is_log_at level e = comes_to log e && level_of e == level

  level-fold_kind :
      (level : Text) (met : Kind) (e : EventJson) (s : Summary)
      → unwrap_or (get (fold_kind floats met e s).logs.by_level level) 0
        ≡ (if nat_beq (number_of met) 3 && level_of e == level then 1 else 0)
          + unwrap_or (get s.logs.by_level level) 0
  unfolding fold_kind fold_log tally_one
  level-fold_kind level met e s = ground (
    arith,
    get-entry (level_of e) level 0 suc s.logs.by_level,
    list_eq.same_iff (level_of e) level,
  )

  level-fold_events :
      (level : Text) (events : List EventJson) (s : Summary)
      → unwrap_or (get (fold_events floats events s).logs.by_level level) 0
        ≡ count_where (is_log_at level) events + unwrap_or (get s.logs.by_level level) 0
  unfolding fold_events
  level-fold_events level [] s = omega arith
  level-fold_events level (e ∷ events) s = omega (
    arith,
    level-fold_events level events (fold_kind floats (kind_of e) e s),
    level-fold_kind level (kind_of e) e s,
  )

  -- After `compute`, the number that `by_level` has for a level, 0 when it has none, is the number
  -- of the log events of that level, where a log event without a level is one of level "info".
  pub compute_levels :
      (level : Text) (trace : TraceJson)
      → unwrap_or (get (compute floats trace).logs.by_level level) 0
        ≡ count_where (is_log_at level) trace.observability_events
  unfolding compute start get
  compute_levels level trace =
      omega (arith, level-fold_events level trace.observability_events (start floats trace))
