-- ===== src/Summary/Folds.antt =====
-- daemon/src/summary.rs: the folds of one event into a summary. A `usize` or `u64` that sums numbers
-- of the payloads wraps at 2 ^ 64; one that counts events cannot reach it. The operations on `f64`
-- are the record `Floats`.
use php_periscope.Common.{
  ℕ, suc, ◌+◌, ◌%◌, ◌^◌, Option, none, some, List, [], ◌∷◌, ◌==◌, list_eq, if◌then◌else◌, nat_beq,
  unwrap_or, and_then,
}
use php_periscope.Common.Text.{Text, codes}
use php_periscope.Common.Maps.{entry}
use php_periscope.Json.{
  Value, Float, Floats, get_str, get_u64, get_f64, value_get, as_u64, as_str, as_array, as_object,
}
use php_periscope.Trace.{EventJson}
use php_periscope.Summary.Report.{
  QuerySummary, ModelSummary, CacheSummary, LogSummary, JobSummary, EventSummary, ExceptionSummary,
  HttpSummary, MailSummary, NotificationSummary, Tally,
}

-- `*m.entry(k).or_default() += n`, at an optional key, and by one.
abbrev pub usize_mod : ℕ
usize_mod = 2 ^ 64

unfoldable pub tally : Option Text → ℕ → Tally → Tally
tally none n m = m
tally (some k) n m = entry k 0 (λ old. (old + n) % usize_mod) m

unfoldable pub tally_one : Option Text → Tally → Tally
tally_one none m = m
tally_one (some k) m = entry k 0 suc m

-- The rest of a text after the first "://", if there is one.
unfoldable pub after_scheme : Text → Option Text
after_scheme [] = none
after_scheme (c ∷ s) =
    let later = after_scheme s in
    elim s [
      | c1 ∷ (c2 ∷ rest) ↦
          if list_eq.same (c ∷ c1 ∷ c2 ∷ []) (codes "://") then some rest else later
      | _ ↦ later
    ]

-- The text up to the first such character: the first piece of a `split`.
unfoldable pub before : ℕ → Text → Text
before c [] = []
before c (d ∷ s) = let rest = before c s in if nat_beq c d then [] else d ∷ rest

unfoldable pub host_of : Text → Option Text
host_of url = elim (before b'?' (before b'/' (unwrap_or (after_scheme url) url))) [
  | [] ↦ none
  | c ∷ s ↦ some (c ∷ s)
]

-- `addr.rfind('@')`, with what follows it.
unfoldable pub domain_of : Text → Option Text
domain_of [] = none
domain_of (c ∷ s) = elim (domain_of s) [
  | some domain ↦ some domain
  | none ↦ if nat_beq c b'@' then some s else none
]

unfoldable pub fold_cache : EventJson → CacheSummary → CacheSummary
fold_cache e c =
    let op = unwrap_or (get_str e.payload (codes "operation")) [] in
    let counted =
      if op == codes "hit"
      then record c { hits = c.hits + 1 }
      else if op == codes "miss"
      then record c { misses = c.misses + 1 }
      else if op == codes "write"
      then record c { writes = c.writes + 1 }
      else if op == codes "forget"
      then record c { forgets = c.forgets + 1 }
      else c in
    record counted { by_store = tally_one (get_str e.payload (codes "store")) c.by_store }

unfoldable pub fold_log : EventJson → LogSummary → LogSummary
fold_log e l = record {
  count = l.count + 1;
  by_level =
      tally_one (some (unwrap_or (get_str e.payload (codes "level")) (codes "info"))) l.by_level;
}

-- `model_summary`: the classes of an aggregate event.
unfoldable pub fold_classes : List (Text × Value) → ModelSummary → ModelSummary
fold_classes [] m = m
fold_classes ((k, v) ∷ by) m =
    let n = unwrap_or (as_u64 v) 0 in
    fold_classes by record {
      hydrated_count = (m.hydrated_count + n) % usize_mod;
      by_class = tally (some k) n m.by_class;
    }

unfoldable pub fold_model : EventJson → ModelSummary → ModelSummary
fold_model e m = elim (get_str e.payload (codes "class")) [
  | some class ↦
      let n = unwrap_or (get_u64 e.payload (codes "count")) 1 in
      record {
        hydrated_count = (m.hydrated_count + n) % usize_mod;
        by_class = tally (some class) n m.by_class;
      }
  | none ↦ elim (and_then (value_get e.payload (codes "by_class")) as_object) [
    | some by ↦ fold_classes by m
    | none ↦ m
  ]
]

unfoldable pub fold_job : EventJson → JobSummary → JobSummary
fold_job e j = record {
  count = j.count + 1;
  by_class = elim (get_str e.payload (codes "job")) [
    | some class ↦ tally_one (some class) j.by_class
    | none ↦ tally_one (get_str e.payload (codes "class")) j.by_class
  ];
}

unfoldable pub fold_event : EventJson → EventSummary → EventSummary
fold_event e ev = record {
  count = ev.count + 1;
  by_class = tally_one (get_str e.payload (codes "event")) ev.by_class;
}

unfoldable pub fold_recipients : List Value → Tally → Tally
fold_recipients [] m = m
fold_recipients (v ∷ arr) m = fold_recipients arr (tally_one (and_then (as_str v) domain_of) m)

unfoldable pub fold_mail : EventJson → MailSummary → MailSummary
fold_mail e m = record {
  count = m.count + 1;
  by_recipient_domain =
      fold_recipients (unwrap_or (and_then (value_get e.payload (codes "to")) as_array) [])
        m.by_recipient_domain;
}

unfoldable pub fold_notification : EventJson → NotificationSummary → NotificationSummary
fold_notification e n = record {
  count = n.count + 1;
  by_channel = tally_one (get_str e.payload (codes "channel")) n.by_channel;
}

unfoldable pub fold_exception : EventJson → ExceptionSummary → ExceptionSummary
fold_exception e x = record {
  count = x.count + 1;
  by_class = tally_one (get_str e.payload (codes "class")) x.by_class;
}

module _ (floats : Floats) where
  -- 100.0, as its 64 bits
  abbrev pub slow_ms : Float
  slow_ms = 4636737291354636288

  unfoldable pub fold_sql : EventJson → QuerySummary → QuerySummary
  fold_sql e q =
      let time = get_f64 floats e.payload (codes "time_ms") in
      record q {
        count = q.count + 1;
        total_ms = elim time [ none ↦ q.total_ms | some ms ↦ floats.add q.total_ms ms ];
        slow_count = elim time [
          | none ↦ q.slow_count
          | some ms ↦ if floats.at_least ms slow_ms then q.slow_count + 1 else q.slow_count
        ];
        by_connection = tally_one (get_str e.payload (codes "connection")) q.by_connection;
      }

  unfoldable pub fold_http : EventJson → HttpSummary → HttpSummary
  fold_http e h =
      let size = λ (k : Text). unwrap_or (get_u64 e.payload k) 0 in
      let bytes = (size (codes "response_bytes") + size (codes "request_bytes")) % usize_mod in
      record {
        count = h.count + 1;
        total_ms = elim (get_f64 floats e.payload (codes "duration_ms")) [
          | none ↦ h.total_ms
          | some ms ↦ floats.add h.total_ms ms
        ];
        total_bytes = (h.total_bytes + bytes) % usize_mod;
        by_host = tally_one (and_then (get_str e.payload (codes "url")) host_of) h.by_host;
      }
