-- ===== src/Decode/Raw.antt =====
-- What the capnp readers, which a build generates from the schema, hand to daemon/src/trace_view.rs:
-- the values that the getters return. A getter that can fail is a result; a text may also fail to
-- be UTF-8, and is `none` then. A group or list that the file need not have is an option.
use php_periscope.Common.{ℕ, Option, none, some, List, [], Bool, unwrap_or}
use php_periscope.Common.Text.{Text}
use php_periscope.Common.Results.{Result, ok, err, ◌>>=◌}
use php_periscope.Json.{Value}

abbrev pub RawText : Type 0
RawText = Result (Option Text)

-- The variants of a captured value: the opaque text, the other ones of the schema, and one that
-- the schema does not have.
pub data RawValue : Type 0 where
  opaque : RawText → RawValue
  typed : RawValue
  unknown_value : RawValue

pub record RawHeader : Type 0 where
  pub name : RawText
  pub value : RawText
  pub redacted : Bool

abbrev pub RawHeaders : Type 0
RawHeaders = Result (List RawHeader)

pub record RawRequest : Type 0 where
  pub method : RawText
  pub uri : RawText
  pub remote_addr : RawText
  pub scheme : RawText
  pub headers : RawHeaders
  pub cookies : RawHeaders
  pub query : RawHeaders
  pub post_params : RawHeaders
  pub total_body_bytes : ℕ
  pub body_truncated : Bool

pub record RawResponse : Type 0 where
  pub status_code : ℕ
  pub has_headers : Bool
  pub headers : RawHeaders
  pub total_body_bytes : ℕ
  pub body_truncated : Bool
  pub duration_micros : ℕ
  pub peak_memory_bytes : ℕ

pub record RawMeta : Type 0 where
  pub php_version : RawText
  pub periscope_version : RawText
  pub sapi : RawText
  pub entry_point : RawText
  pub working_dir : RawText
  pub hostname : RawText
  pub pid : ℕ
  pub started_at_unix_micros : ℕ
  pub duration_micros : ℕ
  pub request : Option (Result RawRequest)
  pub response : Option (Result RawResponse)

pub record RawFrame : Type 0 where
  pub id : ℕ
  pub parent_id : ℕ
  pub function : RawText
  pub file : RawText
  pub line : ℕ
  pub enter_micros : ℕ
  pub exit_micros : ℕ
  pub depth : ℕ
  pub flags : ℕ
  -- the value of each argument
  pub args : Result (List (Result RawValue))
  pub return_value : Result RawValue
  pub observability_event_ids : Result (List ℕ)

pub record RawGeneric : Type 0 where
  pub type_tag : RawText
  pub payload_json : RawText
  pub call_site_json : RawText

-- The variants of an event's payload.
pub data RawPayload : Type 0 where
  generic_json : Result RawGeneric → RawPayload
  sql_query log_line cache_op http_call redis_op event_dispatched job_dispatched : RawPayload
  mail_sent n_plus_one request_resolved : RawPayload
  unknown_payload : RawPayload

pub record RawEvent : Type 0 where
  pub id : ℕ
  pub at_micros : ℕ
  pub in_frame_id : ℕ
  pub payload : RawPayload

pub record RawTrace : Type 0 where
  pub meta : Result RawMeta
  pub frames : Result (List RawFrame)
  pub events : Result (List RawEvent)

-- `serde_json::from_str`, and `Value::to_string`.
pub record JsonText : Type 0 where
  pub from_str : Text → Option Value
  pub print : Value → Text

-- `read_text`
unfoldable pub read_text : Option Text → Text
read_text t = unwrap_or t []

-- `read_text(get()?)`
unfoldable pub text_of : RawText → Result Text
text_of r = r >>= λ t. ok (read_text t)

-- `get().map(read_text).unwrap_or_default()`
unfoldable pub text_or_empty : RawText → Text
text_or_empty r = elim r [ ok t ↦ read_text t | err _ ↦ [] ]

-- `get().ok()`
abbrev pub ok_of {ℓ} : {A : Type ℓ} → Result A → Option A
ok_of (ok a) = some a
ok_of (err _) = none

-- `opaque_or_empty`
unfoldable pub opaque_or_empty : RawValue → Option Text
opaque_or_empty (opaque (ok t)) = some (read_text t)
opaque_or_empty (opaque (err _)) = none
opaque_or_empty typed = none
opaque_or_empty unknown_value = none
