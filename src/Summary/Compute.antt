-- ===== src/Summary/Compute.antt =====
-- daemon/src/summary.rs: `compute`. A tag is first told apart by the arms of its `match`.
use php_periscope.Common.{
  ◌+◌, Option, none, some, List, [], ◌∷◌, ◌==◌, list_eq, if◌then◌else◌, length,
}
use php_periscope.Common.Text.{Text, codes}
use php_periscope.Json.{Floats}
use php_periscope.Trace.{TraceJson, EventJson, RequestJson, ResponseJson}
use php_periscope.Summary.Report.{RequestSummary, ResponseSummary, Summary}
use php_periscope.Summary.Folds.{
  fold_sql, fold_model, fold_cache, fold_log, fold_job, fold_event, fold_http, fold_mail,
  fold_notification, fold_exception,
}

-- The arms of the `match` on a tag.
pub data Kind : Type 0 where
  sql : Kind
  model : Kind
  cache : Kind
  log : Kind
  job : Kind
  event : Kind
  http : Kind
  mail : Kind
  notification : Kind
  exception : Kind
  n_plus_one : Kind
  other : Kind

abbrev pub arms : List (Text × Kind)
arms =
    (codes "sql", sql)
    ∷ (codes "model", model)
    ∷ (codes "model_hydrated", model)
    ∷ (codes "model_summary", model)
    ∷ (codes "cache", cache)
    ∷ (codes "log", log)
    ∷ (codes "job", job)
    ∷ (codes "event", event)
    ∷ (codes "http", http)
    ∷ (codes "mail", mail)
    ∷ (codes "notification", notification)
    ∷ (codes "exception", exception)
    ∷ (codes "n_plus_one", n_plus_one)
    ∷ []

unfoldable pub arm_of : List (Text × Kind) → Text → Kind
arm_of [] tag = other
arm_of ((t, kind) ∷ rest) tag = let later = arm_of rest tag in if tag == t then kind else later

abbrev pub kind_of : EventJson → Kind
kind_of e = arm_of arms e.type_tag

module _ (floats : Floats) where
  -- One round of the loop of `compute`.
  unfoldable pub fold_kind : Kind → EventJson → Summary → Summary
  fold_kind sql e s = record s { queries = fold_sql floats e s.queries }
  fold_kind model e s = record s { models = fold_model e s.models }
  fold_kind cache e s = record s { cache = fold_cache e s.cache }
  fold_kind log e s = record s { logs = fold_log e s.logs }
  fold_kind job e s = record s { jobs = fold_job e s.jobs }
  fold_kind event e s = record s { events = fold_event e s.events }
  fold_kind http e s = record s { http = fold_http floats e s.http }
  fold_kind mail e s = record s { mail = fold_mail e s.mail }
  fold_kind notification e s = record s { notifications = fold_notification e s.notifications }
  fold_kind exception e s = record s { exceptions = fold_exception e s.exceptions }
  fold_kind n_plus_one e s = record s {
    queries = record s.queries { n_plus_one_count = s.queries.n_plus_one_count + 1 };
  }
  fold_kind other e s = s

  unfoldable pub fold_events : List EventJson → Summary → Summary
  fold_events [] s = s
  fold_events (e ∷ es) s = fold_events es (fold_kind (kind_of e) e s)

  unfoldable pub request_of : Option RequestJson → RequestSummary
  request_of none = record { method = []; uri = []; total_body_bytes = 0; upload_count = 0 }
  request_of (some req) = record {
    method = req.method;
    uri = req.uri;
    total_body_bytes = req.total_body_bytes;
    upload_count = 0;
  }

  unfoldable pub response_of : Option ResponseJson → ResponseSummary
  response_of none = record {
    status_code = 0;
    total_body_bytes = 0;
    duration_micros = 0;
    peak_memory_bytes = 0;
  }
  response_of (some resp) = record {
    status_code = resp.status_code;
    total_body_bytes = resp.total_body_bytes;
    duration_micros = resp.duration_micros;
    peak_memory_bytes = resp.peak_memory_bytes;
  }

  -- The summary before the loop.
  unfoldable pub start : TraceJson → Summary
  start trace = record {
    duration_micros = trace.meta.duration_micros;
    frame_count = length trace.frames;
    event_count = length trace.observability_events;
    queries = record {
      count = 0;
      total_ms = 0;
      slow_count = 0;
      n_plus_one_count = 0;
      by_connection = [];
    };
    models = record { hydrated_count = 0; by_class = [] };
    cache = record { hits = 0; misses = 0; writes = 0; forgets = 0; by_store = [] };
    logs = record { count = 0; by_level = [] };
    jobs = record { count = 0; by_class = [] };
    events = record { count = 0; by_class = [] };
    http = record { count = 0; total_ms = 0; total_bytes = 0; by_host = [] };
    mail = record { count = 0; by_recipient_domain = [] };
    notifications = record { count = 0; by_channel = [] };
    exceptions = record { count = 0; by_class = [] };
    request = request_of trace.meta.request;
    response = response_of trace.meta.response;
  }

  unfoldable pub compute : TraceJson → Summary
  compute trace = fold_events trace.observability_events (start trace)
