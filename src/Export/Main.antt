-- ===== src/Export/Main.antt =====
-- daemon/src/bin/export.rs: `main`, once its arguments are parsed, and the files that it writes.
use php_periscope.Common.{
  ℕ, Option, none, some, List, [], ◌∷◌, ◌++◌, Bool, if◌then◌else◌, nat_beq, unwrap_or, map_some,
  ◌&&◌, ◌||◌, ◌==◌, list_eq, reverse,
}
use php_periscope.Common.Text.{Text, codes}
use php_periscope.Common.Results.{Result, ok, err, ◌>>=◌}
use php_periscope.Common.Numbers.{rsplit_once}
use php_periscope.Decode.Raw.{JsonText}
use php_periscope.Decode.Events.{decode_trace}
use php_periscope.Json.{Floats}
use php_periscope.Trace.{TraceJson}
use php_periscope.Summary.Report.{Summary}
use php_periscope.Summary.Compute
use php_periscope.Insights.Report.{Insights, Platform}
use php_periscope.Insights.Detect
use php_periscope.Api.Reply.{with_context}
use php_periscope.Api.Disk.{
  Disk, Capnp, slash, join, read, write, exists, member, file_stem, open_trace_file,
}
use php_periscope.Export.Assets.{
  split_at_text, trim_slashes, read_to_string, read_asset, inline_assets,
}

pub data Format : Type 0 where
  html json cptrace : Format

pub record Args : Type 0 where
  pub trace : Text
  pub trace_dir : Text
  pub format : Format
  pub out : Option Text
  pub ui_dir : Option Text
  pub pretty : Bool

pub record ExportPayload : Type 0 where
  pub trace : TraceJson
  pub summary : Summary
  pub insights : Insights

-- What the command takes from other crates, and the encoding of text as bytes.
pub record Host : Type 1 where
  pub capnp : Capnp
  pub json_text : JsonText
  pub floats : Floats
  pub platform : Platform
  pub to_string : ExportPayload → Result Text
  pub to_string_pretty : ExportPayload → Result Text
  pub from_utf8 : List ℕ → Option Text
  pub as_bytes : Text → List ℕ

unfoldable pub resolve_trace_path : Disk → Args → Result Text
resolve_trace_path disk args =
    let by_id = join args.trace_dir (args.trace ++ codes ".cptrace") in
    if exists disk args.trace
    then ok args.trace
    else if exists disk by_id
    then ok by_id
    else err (codes "trace not found: tried " ++ args.trace ++ codes " and " ++ by_id)

-- `Path::is_dir`
abbrev pub is_dir : Disk → Text → Bool
is_dir disk path = member path disk.dirs

unfoldable pub resolve_ui_dir : Disk → Option Text → Result Text
resolve_ui_dir disk (some d) =
    if is_dir disk d then ok d else err (codes "--ui-dir does not exist: " ++ d)
resolve_ui_dir disk none =
    if is_dir disk (codes "ui/dist")
    then ok (codes "ui/dist")
    else if is_dir disk (codes "../ui/dist")
    then ok (codes "../ui/dist")
    else err (codes "no UI bundle found. Run `cd ui && bun run build`, or pass --ui-dir.")

-- `json.replace("</", "<\\/")`
unfoldable pub escape : Text → Text
escape [] = []
escape (c ∷ []) = c ∷ []
escape (c ∷ d ∷ s) =
    let replaced = escape s in
    let kept = escape (d ∷ s) in
    if nat_beq c b'<' && nat_beq d slash then b'<' ∷ 0x5c ∷ slash ∷ replaced else c ∷ kept

unfoldable pub snippet_of : Text → Text
snippet_of blob = codes "<script>window.PERISCOPE_TRACE=" ++ escape blob ++ codes ";</script>"

-- The page with the snippet before the end of its head, or at its start where it has none.
unfoldable pub inject : Text → Text → Text
inject snippet inlined = elim (split_at_text (codes "</head>") inlined) [
  | some found ↦ found.0 ++ snippet ++ found.1
  | none ↦ snippet ++ inlined
]

-- The last component of a path, and its stem: a path of no name has none.
unfoldable pub file_name : Text → Text
file_name path =
    let trimmed = reverse (trim_slashes (reverse path)) in
    elim (rsplit_once slash trimmed) [ none ↦ trimmed | some parts ↦ parts.1 ]

unfoldable pub stem_of : Text → Result Text
stem_of path =
    let name = file_name path in
    if name == [] || name == codes "." || name == codes ".."
    then err (codes "trace path has no stem: " ++ path)
    else ok (file_stem name)

module _ (host : Host) where
  unfoldable pub build_payload : Disk → Text → Text → Result ExportPayload
  build_payload disk path id = do
    trace ← with_context (open_trace_file host.capnp disk path) (codes "opening " ++ path)
    root ← trace.message
    decoded ← decode_trace host.json_text id root
    ok (record {
      trace = decoded;
      summary = Compute.compute host.floats decoded;
      insights = Detect.compute host.platform decoded;
    })

  -- `write_html`; `none` is fuel that ran out.
  unfoldable pub write_html : Disk → Text → ExportPayload → Text → Option (Result Disk)
  write_html disk ui_dir payload out =
      let index_path = join ui_dir (codes "index.html") in
      elim (with_context (read_to_string host.from_utf8 disk index_path)
        (codes "reading " ++ index_path)) [
          | err e ↦ some (err e)
          | ok page ↦
              map_some
                (λ inlining. do
                  inlined ← inlining
                  blob ← with_context (host.to_string payload) (codes "serialising trace payload")
                  with_context (write disk out (host.as_bytes (inject (snippet_of blob) inlined)))
                      (codes "creating " ++ out))
                (inline_assets (read_asset host.from_utf8 disk ui_dir) page)
        ]

  unfoldable pub export_cptrace : Disk → Text → Text → Result Disk
  export_cptrace disk path out = do
    bytes ← with_context (read disk path) (codes "copying " ++ path ++ codes " -> " ++ out)
    with_context (write disk out bytes) (codes "copying " ++ path ++ codes " -> " ++ out)

  unfoldable pub export_json : Disk → Text → Text → Bool → Text → Result Disk
  export_json disk path id pretty out = do
    payload ← build_payload disk path id
    text ← if pretty then host.to_string_pretty payload else host.to_string payload
    with_context (write disk out (host.as_bytes text)) (codes "writing " ++ out)

  unfoldable pub export_html : Disk → Text → Text → Option Text → Text → Option (Result Disk)
  export_html disk path id ui_dir out = elim (build_payload disk path id) [
    | err e ↦ some (err e)
    | ok payload ↦ elim (resolve_ui_dir disk ui_dir) [
      | err e ↦ some (err e)
      | ok dir ↦ write_html disk dir payload out
    ]
  ]

  -- `main`: the disk with the file that is written.
  unfoldable pub main : Disk → Args → Option (Result Disk)
  main disk args = elim (resolve_trace_path disk args) [
    | err e ↦ some (err e)
    | ok path ↦ elim (stem_of path) [
      | err e ↦ some (err e)
      | ok id ↦ elim args.format [
        | cptrace ↦ some (export_cptrace disk path (unwrap_or args.out (id ++ codes ".cptrace")))
        | json ↦
            some (export_json disk path id args.pretty (unwrap_or args.out (id ++ codes ".json")))
        | html ↦ export_html disk path id args.ui_dir (unwrap_or args.out (id ++ codes ".html"))
      ]
    ]
  ]
