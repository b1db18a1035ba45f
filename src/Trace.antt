-- ===== src/Trace.antt =====
-- daemon/src/trace_view.rs: the structs of a decoded trace. A `u32` or `u64` is a number, and a
-- `String` is a text.
use php_periscope.Common.{ℕ, Option, List, Bool}
use php_periscope.Common.Text.{Text}
use php_periscope.Json.{Value}

pub record HeaderJson : Type 0 where
  pub name : Text
  pub value : Text
  pub redacted : Bool

pub record RequestJson : Type 0 where
  pub method : Text
  pub uri : Text
  pub remote_addr : Text
  pub scheme : Text
  pub headers : List HeaderJson
  pub cookies : List HeaderJson
  pub query : List HeaderJson
  pub post_params : List HeaderJson
  pub total_body_bytes : ℕ
  pub body_truncated : Bool

pub record ResponseJson : Type 0 where
  pub status_code : ℕ
  pub headers : List HeaderJson
  pub total_body_bytes : ℕ
  pub body_truncated : Bool
  pub duration_micros : ℕ
  pub peak_memory_bytes : ℕ

pub record MetaJson : Type 0 where
  pub php_version : Text
  pub periscope_version : Text
  pub sapi : Text
  pub entry_point : Text
  pub working_dir : Text
  pub hostname : Text
  pub pid : ℕ
  pub started_at_unix_micros : ℕ
  pub duration_micros : ℕ
  pub request : Option RequestJson
  pub response : Option ResponseJson

pub record FrameJson : Type 0 where
  pub id : ℕ
  pub parent_id : ℕ
  pub function : Text
  pub file : Text
  pub line : ℕ
  pub enter_micros : ℕ
  pub exit_micros : ℕ
  pub duration_micros : ℕ
  pub depth : ℕ
  pub flags : ℕ
  pub args_summary : Option Text
  pub return_value_summary : Option Text
  pub observability_event_ids : List ℕ

pub record SnippetLineJson : Type 0 where
  pub number : ℕ
  pub source : Text

pub record StackFrameJson : Type 0 where
  pub file : Text
  pub line : ℕ
  pub function : Text

pub record CallSiteJson : Type 0 where
  pub file : Text
  pub line : ℕ
  pub snippet : List SnippetLineJson
  pub frame_stack : List ℕ
  pub stack : List StackFrameJson

pub record EventJson : Type 0 where
  pub id : ℕ
  pub at_micros : ℕ
  pub in_frame_id : ℕ
  pub type_tag : Text
  pub payload : Value
  pub user_call_site : Option CallSiteJson

pub record TraceJson : Type 0 where
  pub id : Text
  pub meta : MetaJson
  pub frames : List FrameJson
  pub observability_events : List EventJson
