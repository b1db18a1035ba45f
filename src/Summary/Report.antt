-- ===== src/Summary/Report.antt =====
-- daemon/src/summary.rs: the structs. A `BTreeMap` is an association list, its keys in the order in
-- which they came.
use php_periscope.Common.{ℕ, list_eq}
use php_periscope.Common.Text.{Text}
use php_periscope.Common.Maps.{Map}
use php_periscope.Json.{Float}

abbrev pub Tally : Type 0
Tally = Map Text ℕ

pub record QuerySummary : Type 0 where
  pub count : ℕ
  pub total_ms : Float
  pub slow_count : ℕ
  pub n_plus_one_count : ℕ
  pub by_connection : Tally

pub record ModelSummary : Type 0 where
  pub hydrated_count : ℕ
  pub by_class : Tally

pub record CacheSummary : Type 0 where
  pub hits : ℕ
  pub misses : ℕ
  pub writes : ℕ
  pub forgets : ℕ
  pub by_store : Tally

pub record LogSummary : Type 0 where
  pub count : ℕ
  pub by_level : Tally

-- `JobSummary`, `EventSummary` and `ExceptionSummary`, which have the same fields.
pub record JobSummary : Type 0 where
  pub count : ℕ
  pub by_class : Tally

pub record EventSummary : Type 0 where
  pub count : ℕ
  pub by_class : Tally

pub record ExceptionSummary : Type 0 where
  pub count : ℕ
  pub by_class : Tally

pub record HttpSummary : Type 0 where
  pub count : ℕ
  pub total_ms : Float
  pub total_bytes : ℕ
  pub by_host : Tally

pub record MailSummary : Type 0 where
  pub count : ℕ
  pub by_recipient_domain : Tally

pub record NotificationSummary : Type 0 where
  pub count : ℕ
  pub by_channel : Tally

pub record RequestSummary : Type 0 where
  pub method : Text
  pub uri : Text
  pub total_body_bytes : ℕ
  pub upload_count : ℕ

pub record ResponseSummary : Type 0 where
  pub status_code : ℕ
  pub total_body_bytes : ℕ
  pub duration_micros : ℕ
  pub peak_memory_bytes : ℕ

pub record Summary : Type 0 where
  pub duration_micros : ℕ
  pub frame_count : ℕ
  pub event_count : ℕ
  pub queries : QuerySummary
  pub models : ModelSummary
  pub cache : CacheSummary
  pub logs : LogSummary
  pub jobs : JobSummary
  pub events : EventSummary
  pub http : HttpSummary
  pub mail : MailSummary
  pub notifications : NotificationSummary
  pub exceptions : ExceptionSummary
  pub request : RequestSummary
  pub response : ResponseSummary
