-- ===== src/Dump/Print.antt =====
-- daemon/src/bin/dump.rs: the text that is printed, line by line. An error ends the output after
-- the lines before it, and so does a panic.
use php_periscope.Common.{
  ℕ, zero, suc, ◌-◌, ltb, nat_beq, Option, none, some, List, [], ◌∷◌, ◌++◌, if◌then◌else◌, length,
  and_then,
}
use php_periscope.Common.Text.{Text, codes, byte_len, slice_to}
use php_periscope.Common.Results.{Result, ok, err}
use php_periscope.Json.{Value, null}
use php_periscope.Decode.Raw.{
  RawFrame, RawEvent, RawMeta, JsonText, text_of, ok_of, opaque_or_empty,
}
use php_periscope.Dump.Report.{CallSiteJson, SnippetLineJson, StackFrameJson}
use php_periscope.Dump.Decode.{dump_args, dump_payload, dump_call_site}

pub data End : Type 0 where
  finished : End
  failed : Text → End
  panicked : End

pub record Output : Type 0 where
  pub lines : List Text
  pub end : End

abbrev pub println : Text → Output
println line = record { lines = line ∷ []; end = finished }

abbrev pub silent : Output
silent = record { lines = []; end = finished }

-- What follows is printed only when nothing went wrong before.
infixl 6 ◌&then◌
abbrev pub ◌&then◌ : Output → Output → Output
o &then p = elim o.end [ finished ↦ record { lines = o.lines ++ p.lines; end = p.end } | _ ↦ o ]

-- `?`
abbrev pub try {ℓ} : {A : Type ℓ} → Result A → (A → Output) → Output
try (ok a) k = k a
try (err e) k = record { lines = []; end = failed e }

abbrev pub each {ℓ} : {A : Type ℓ} → (A → Output) → List A → Output
each f [] = silent
each f (x ∷ xs) = f x &then each f xs

unfoldable pub spaces : ℕ → Text
spaces zero = []
spaces (suc n) = b' ' ∷ spaces n

-- `{:<n}` and `{:>n}`
abbrev pub pad_right : ℕ → Text → Text
pad_right n t = t ++ spaces (n - length t)

abbrev pub pad_left : ℕ → Text → Text
pad_left n t = spaces (n - length t) ++ t

-- An optional value that is not empty, after its label.
unfoldable pub print_value : Text → Option Text → Output
print_value label none = silent
print_value label (some []) = silent
print_value label (some (c ∷ t)) = println (label ++ (c ∷ t))

module _ (json : JsonText) (show_nat : ℕ → Text) where
  unfoldable pub print_meta : Text → RawMeta → Output
  print_meta path meta =
      println (codes "trace: " ++ path)
      &then try (text_of meta.php_version) (λ t. println (codes "  php           " ++ t))
      &then try (text_of meta.periscope_version) (λ t. println (codes "  periscope     " ++ t))
      &then try (text_of meta.sapi) (λ t. println (codes "  sapi          " ++ t))
      &then try (text_of meta.entry_point) (λ t. println (codes "  entry         " ++ t))
      &then try (text_of meta.working_dir) (λ t. println (codes "  cwd           " ++ t))
      &then println (codes "  pid           " ++ show_nat meta.pid)
      &then println (codes "  started_at_us " ++ show_nat meta.started_at_unix_micros)
      &then println (codes "  duration_us   " ++ show_nat meta.duration_micros)
      &then println []

  abbrev pub place : Text → ℕ → Text
  place [] line = []
  place (c ∷ file) line = codes "  (" ++ (c ∷ file) ++ codes ":" ++ show_nat line ++ codes ")"

  unfoldable pub frame_line : RawFrame → Text → Text → Text
  frame_line f function file =
      codes "  #"
      ++ pad_right 4 (show_nat f.id)
      ++ codes " parent=#"
      ++ pad_right 4 (show_nat f.parent_id)
      ++ codes " d="
      ++ pad_right 2 (show_nat f.depth)
      ++ codes " "
      ++ pad_left 8 (show_nat (f.exit_micros - f.enter_micros))
      ++ codes "us  "
      ++ function
      ++ place file f.line

  unfoldable pub print_frame : RawFrame → Output
  print_frame f =
      try (text_of f.function)
        (λ function. try (text_of f.file) (λ file. println (frame_line f function file)))
      &then try f.args (λ args. print_value (codes "        args = ") (dump_args args))
      &then print_value (codes "        ret  = ") (and_then (ok_of f.return_value) opaque_or_empty)

  -- The preview of a payload's JSON: all of it, or its first 117 bytes; `none` is a panic.
  unfoldable pub shorten : Text → Option Text
  shorten s =
      if ltb 120 (byte_len s)
      then elim (slice_to 117 s) [
        | none ↦ none
        | some head ↦ some (codes "  " ++ head ++ codes "…")
      ]
      else some (codes "  " ++ s)

  unfoldable pub payload_preview : Value → Option Text
  payload_preview null = some []
  payload_preview v = shorten (json.print v)

  abbrev pub site_place : Option CallSiteJson → Text
  site_place none = []
  site_place (some c) = place c.file c.line

  unfoldable pub event_line : RawEvent → Text → Option CallSiteJson → Text → Text
  event_line e tag site preview =
      codes "  #"
      ++ pad_right 4 (show_nat e.id)
      ++ codes " @"
      ++ pad_left 10 (show_nat e.at_micros)
      ++ codes "us  frame=#"
      ++ pad_right 4 (show_nat e.in_frame_id)
      ++ codes "  "
      ++ tag
      ++ site_place site
      ++ preview

  abbrev pub snippet_line : ℕ → SnippetLineJson → Output
  snippet_line at line = println (
      codes "       "
      ++ (if nat_beq line.number at then codes ">>" else codes "  ")
      ++ codes " "
      ++ pad_left 4 (show_nat line.number)
      ++ codes " | "
      ++ line.source)

  abbrev pub call_line : StackFrameJson → Output
  call_line f =
      println
        (codes "         " ++ f.file ++ codes ":" ++ show_nat f.line ++ codes "  " ++ f.function)

  unfoldable pub print_site : Option CallSiteJson → Output
  print_site none = silent
  print_site (some c) =
      each (snippet_line c.line) c.snippet
      &then (if ltb 1 (length c.stack)
          then println (codes "       stack:") &then each call_line c.stack
          else silent)
      &then println []

  unfoldable pub print_event : RawEvent → Output
  print_event e = try (dump_payload json e.payload) (λ decoded.
      try (dump_call_site json e.payload) (λ site. elim (payload_preview decoded.1) [
        | none ↦ record { lines = []; end = panicked }
        | some preview ↦ println (event_line e decoded.0 site preview) &then print_site site
      ]))
