-- ===== src/Insights/Report.antt =====
-- daemon/src/insights.rs: the structs, and what the detectors take from the standard library.
use php_periscope.Common.{ℕ, Option, List, Bool}
use php_periscope.Common.Text.{Text}
use php_periscope.Json.{Float, Floats}

pub record NPlusOneInsight : Type 0 where
  pub pattern : Text
  pub count : ℕ
  pub first_event_id : ℕ
  pub frame_id : ℕ
  pub call_site_file : Option Text
  pub call_site_line : Option ℕ
  pub recommendation : Text

pub record SlowFrameInsight : Type 0 where
  pub frame_id : ℕ
  pub function : Text
  pub file : Text
  pub line : ℕ
  pub duration_micros : ℕ
  pub recommendation : Text

pub record MemoryHogInsight : Type 0 where
  pub function : Text
  pub frame_id : ℕ
  pub recommendation : Text

pub record DbInLoopInsight : Type 0 where
  pub frame_id : ℕ
  pub function : Text
  pub query_count : ℕ
  pub recommendation : Text

pub record SerialHttpInsight : Type 0 where
  pub frame_id : ℕ
  pub function : Text
  pub call_count : ℕ
  pub total_ms : Float
  pub recommendation : Text

pub record CacheMissInsight : Type 0 where
  pub key : Text
  pub miss_count : ℕ
  pub recommendation : Text

pub record SlowQueryInsight : Type 0 where
  pub event_id : ℕ
  pub sql : Text
  pub time_ms : Float
  pub recommendation : Text

pub record Insights : Type 0 where
  pub n_plus_one : List NPlusOneInsight
  pub slow_frames : List SlowFrameInsight
  pub memory_hogs : List MemoryHogInsight
  pub db_in_loop : List DbInLoopInsight
  pub serial_http : List SerialHttpInsight
  pub cache_miss_storm : List CacheMissInsight
  pub slow_queries : List SlowQueryInsight

pub record Platform : Type 1 where
  -- `f64`: its sums and tests, `<`, and `as f64 / 1000.0`
  pub floats : Floats
  pub less : Float → Float → Bool
  pub thousandth : ℕ → Float
  -- `{}` of a number and `{:.0}` of an `f64`
  pub show_nat : ℕ → Text
  pub show_rounded : Float → Text
  pub is_whitespace : ℕ → Bool
  -- the order in which a `HashMap` yields its entries
  pub into_iter : {A : Type 0} → List A → List A
