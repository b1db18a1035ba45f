-- ===== src/Summary/Totals.antt =====
-- daemon/src/summary.rs: the numbers of `compute` against the events of the trace.
use php_periscope.Common.{◌%◌, ◌≡◌, arith, count_where, length}
use php_periscope.Json.{Floats}
use php_periscope.Trace.{TraceJson}
use php_periscope.Summary.Folds.{usize_mod}
use php_periscope.Summary.Compute.{compute, start}
use php_periscope.Summary.Counts.{
  Counter, counter, counted, counter-fold_events, counter-start, event_count-fold_events,
}
use php_periscope.Summary.Sums.{
  sum_of, adds_models, adds_bytes, models-fold_events, bytes-fold_events,
}

module _ (floats : Floats) where
  -- After `compute`, each counter of events is the number of the events of the trace that it is
  -- for: the queries, those of at least 100 ms, the n_plus_one events, the cache events by their
  -- operation (hit, miss, write, forget), the log, job, event, http, mail, notification and
  -- exception events. The event count is the number of all events. The hydrated models are the sum,
  -- modulo 2 ^ 64, of what the model events bring in: the count of one that names a class, 1 when
  -- it has no count, and the counts of all its classes for one that does not. The total bytes are
  -- the sum, modulo 2 ^ 64, of the response and request bytes of the http events.
  pub compute_totals :
      (c : Counter) (trace : TraceJson)
      → (counter c (compute floats trace)
          ≡ count_where (counted floats c) trace.observability_events)
        × ((compute floats trace).event_count ≡ length trace.observability_events)
        × ((compute floats trace).models.hydrated_count
            ≡ sum_of adds_models trace.observability_events % usize_mod)
        × ((compute floats trace).http.total_bytes
            ≡ sum_of adds_bytes trace.observability_events % usize_mod)
  unfolding compute start
  compute_totals c trace = (
    omega (
      arith,
      counter-fold_events floats c trace.observability_events (start floats trace),
      counter-start floats c trace,
    ),
    event_count-fold_events floats trace.observability_events (start floats trace),
    omega (
      arith,
      models-fold_events floats trace.observability_events 0 (start floats trace) (omega arith),
    ),
    omega (
      arith,
      bytes-fold_events floats trace.observability_events 0 (start floats trace) (omega arith),
    ),
  )
