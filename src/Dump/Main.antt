-- ===== src/Dump/Main.antt =====
-- daemon/src/bin/dump.rs: `main`, once its arguments are parsed.
use php_periscope.Common.{ℕ, ltb, nat_beq, List, [], ◌++◌, Bool, ◌||◌, if◌then◌else◌, length, take}
use php_periscope.Common.Text.{Text, codes}
use php_periscope.Common.Results.{Result, ok, ◌>>=◌, collect}
use php_periscope.Decode.Raw.{RawTrace, RawMeta, RawFrame, RawEvent, JsonText}
use php_periscope.Dump.Report.{TraceJson}
use php_periscope.Dump.Decode.{dump_meta, dump_frame, dump_event}
use php_periscope.Dump.Print.{
  Output, println, each, try, ◌&then◌, print_meta, print_frame, print_event,
}

pub record Args : Type 0 where
  pub trace : Text
  pub limit : ℕ
  pub json : Bool

-- How many frames are shown: 0 asks for all.
unfoldable pub shown : ℕ → ℕ → ℕ
shown limit total = if nat_beq limit 0 || ltb total limit then total else limit

module _ (json : JsonText) where
  -- What `--json` prints. The frames and the events are decoded before the meta block.
  unfoldable pub dump_json : ℕ → RawTrace → Result TraceJson
  dump_json limit root = do
    raw_meta ← root.meta
    raw_frames ← root.frames
    raw_events ← root.events
    frames ← collect dump_frame (take (shown limit (length raw_frames)) raw_frames)
    events ← collect (dump_event json) raw_events
    meta ← dump_meta raw_meta
    ok (record { meta = meta; frames = frames; observability_events = events })

  module _ (show_nat : ℕ → Text) (to_string_pretty : TraceJson → Result Text) where
    unfoldable pub dump_text : Args → RawMeta → List RawFrame → List RawEvent → Output
    dump_text args meta frames events =
        let total = length frames in
        let limit = shown args.limit total in
        print_meta json show_nat args.trace meta
        &then println (
            codes "frames ("
            ++ show_nat total
            ++ codes " total, showing "
            ++ show_nat limit
            ++ codes "):")
        &then each (print_frame json show_nat) (take limit frames)
        &then println []
        &then println
            (codes "observability events (" ++ show_nat (length events) ++ codes " total):")
        &then each (print_event json show_nat) events

    -- `main`, given the trace that `Trace::open` read.
    unfoldable pub main : Args → RawTrace → Output
    main args root =
        if args.json
        then try (dump_json args.limit root) (λ out. try (to_string_pretty out) println)
        else try root.meta (λ meta.
          try root.frames (λ frames. try root.events (λ events. dump_text args meta frames events)))
