-- ===== src/Dump/Report.antt =====
-- daemon/src/bin/dump.rs: its own structs of a decoded trace.
use php_periscope.Common.{ℕ, Option, List}
use php_periscope.Common.Text.{Text}
use php_periscope.Json.{Value}

pub record SnippetLineJson : Type 0 where
  pub number : ℕ
  pub source : Text

pub record StackFrameJson : Type 0 where
  pub file : Text
  pub line : ℕ
  pub function : Text

pub record CallSiteJson : Type 0 where
  pub file : Text
  pub line : ℕ
  pub snippet : List SnippetLineJson
  pub frame_stack : List ℕ
  pub stack : List StackFrameJson

pub record EventJson : Type 0 where
  pub id : ℕ
  pub at_micros : ℕ
  pub in_frame_id : ℕ
  pub type_tag : Text
  pub payload : Value
  pub user_call_site : Option CallSiteJson

pub record MetaJson : Type 0 where
  pub php_version : Text
  pub periscope_version : Text
  pub sapi : Text
  pub entry_point : Text
  pub working_dir : Text
  pub pid : ℕ
  pub started_at_unix_micros : ℕ
  pub duration_micros : ℕ

pub record FrameJson : Type 0 where
  pub id : ℕ
  pub parent_id : ℕ
  pub function : Text
  pub file : Text
  pub line : ℕ
  pub enter_micros : ℕ
  pub exit_micros : ℕ
  pub duration_micros : ℕ
  pub depth : ℕ
  pub args : Option Text
  pub return_value : Option Text

pub record TraceJson : Type 0 where
  pub meta : MetaJson
  pub frames : List FrameJson
  pub observability_events : List EventJson
