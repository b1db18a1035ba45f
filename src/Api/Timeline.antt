-- ===== src/Api/Timeline.antt =====
-- daemon/src/api.rs: the order of the timeline.
use php_periscope.Common.{
  ℕ, ◌+◌, ◌++◌, ◌≡◌, ◌∙◌, arith, Bool, nat_beq, retain, count_where, count_where-append,
}
use php_periscope.Common.Sort.{
  IsSorted, by_key, IsSorted-sort_by_key, count_where-sort_by, retain-sort_by,
}
use php_periscope.Trace.{TraceJson}
use php_periscope.Api.Views.{TimelineEntry, frame_entries, event_entries, timeline}

-- The timeline is in the order of time; any test passes for as many of its entries as it does for
-- the entries of the frames and of the events together; and entries of one time stand in the
-- order of the frames, a frame's start before its end, and then of the events.
pub timeline_lem :
    (trace : TraceJson) (test : TimelineEntry → Bool) (t : ℕ)
    → let starts_at = λ (e : TimelineEntry). nat_beq e.at_micros t in
      let frames = frame_entries trace.frames in
      let events = event_entries trace.observability_events in
      IsSorted (by_key (λ (e : TimelineEntry). e.at_micros)) (timeline trace)
      × (count_where test (timeline trace) ≡ count_where test frames + count_where test events)
      × (retain starts_at (timeline trace) ≡ retain starts_at (frames ++ events))
unfolding timeline
timeline_lem trace test t =
    let frames = frame_entries trace.frames in
    let events = event_entries trace.observability_events in
    let key = λ (e : TimelineEntry). e.at_micros in
    (
      IsSorted-sort_by_key key (frames ++ events),
      count_where-sort_by (by_key key) test (frames ++ events)
          ∙ count_where-append test frames events,
      retain-sort_by (by_key key) (λ (e : TimelineEntry). nat_beq e.at_micros t)
          (λ x y hx hy. ground arith) (frames ++ events),
    )
