-- ===== src/Api/Metrics.antt =====
-- daemon/src/api.rs: the storage statistics, and the metrics that a browser posts, which are kept in
-- a file beside the trace they belong to.
use php_periscope.Common.{
  ℕ, ◌+◌, ◌-◌, ◌%◌, ◌^◌, Option, none, some, List, [], ◌∷◌, ◌++◌, Bool, true, false, not, ◌&&◌,
  if◌then◌else◌, ltb, leb, nat_beq, ◌==◌, list_eq, reverse, and_then, map_some, unwrap_or, length,
}
use php_periscope.Common.Text.{Text, codes}
use php_periscope.Common.Results.{ok, err}
use php_periscope.Common.Numbers.{show_nat, parse_u64, split_once}
use php_periscope.Filter.{starts_with}
use php_periscope.Json.{Value, null, number, pos_int, object, Fields, end, field}
use php_periscope.Api.Reply.{ApiResult, answer, refuse, internal, ◌>>=◌, or_internal, with_context}
use php_periscope.Api.Disk.{Disk, File, join, read_dir, read, write, exists, file_stem}
use php_periscope.Api.Traces.{ApiState, is_trace}

pub record StorageStats : Type 0 where
  pub trace_dir : Text
  pub trace_count : ℕ
  pub total_bytes : ℕ

abbrev pub u64_size : ℕ
u64_size = 2 ^ 64

-- The loop of `get_storage`: entries and metadata that cannot be read are left out.
unfoldable pub storage_loop : List (Text × File) → ℕ → ℕ → ℕ × ℕ
storage_loop [] count total = (count, total)
storage_loop ((name, file) ∷ read) count total =
    let skip = storage_loop read count total in
    let counted = storage_loop read (count + 1) ((total + length file.bytes) % u64_size) in
    elim file.entry_fault [
      | some _ ↦ skip
      | none ↦
          if not (is_trace name)
          then skip
          else elim file.metadata_fault [ some _ ↦ skip | none ↦ counted ]
    ]

unfoldable pub get_storage : ApiState → Disk → ApiResult StorageStats
get_storage state disk = do
  read ←
      or_internal (
        with_context (read_dir disk state.trace_dir)
          (codes "reading trace dir " ++ state.trace_dir))
  answer (record {
    trace_dir = state.trace_dir;
    trace_count = (storage_loop read 0 0).0;
    total_bytes = (storage_loop read 0 0).1;
  })

pub record RevealResponse : Type 0 where
  pub revealed : Bool
  pub command : Text

-- `reveal_storage`, on the host's command, empty where there is none, and on how running it ends:
-- whether it succeeds, or that it cannot be started.
unfoldable pub reveal_storage :
    Text → (Text → Text → Option Bool) → ApiState → ApiResult RevealResponse
reveal_storage [] run state =
    refuse (record { code = 501; message = codes "reveal is only supported on macOS and Linux" })
reveal_storage (c ∷ command) run state = elim (run (c ∷ command) state.trace_dir) [
  | none ↦ refuse (internal (codes "spawning " ++ (c ∷ command) ++ codes " " ++ state.trace_dir))
  | some success ↦ answer (record { revealed = success; command = c ∷ command })
]

pub record ClientMetricsBody : Type 0 where
  pub pid : ℕ
  pub started_at_unix_micros : ℕ
  pub extra : Value

-- `str::ends_with`, and `u64::abs_diff`
abbrev pub ends_with : Text → Text → Bool
ends_with s suffix = starts_with (reverse suffix) (reverse s)

abbrev pub abs_diff : ℕ → ℕ → ℕ
abs_diff a b = (a - b) + (b - a)

abbrev pub window_micros : ℕ
window_micros = 2000000

-- How far the start that a trace's file name gives is from the hint: none where the loop of
-- `find_matching_trace` passes the entry over.
unfoldable pub match_delta : ℕ → ℕ → Text × File → Option ℕ
match_delta pid started (name, file) =
    let stem = file_stem name in
    elim file.entry_fault [
      | some _ ↦ none
      | none ↦
          if not (is_trace name)
          then none
          else if not (nat_beq pid 0) && not (ends_with stem (b'-' ∷ show_nat pid))
          then none
          else and_then (split_once b'-' stem) (λ parts.
            and_then (parse_u64 parts.0) (λ trace_started.
              let delta = abs_diff trace_started started in
              if ltb window_micros delta then none else some delta))
    ]

-- The loop, with the best so far: an equal distance does not replace it.
unfoldable pub match_loop : ℕ → ℕ → List (Text × File) → Option (ℕ × Text) → Option (ℕ × Text)
match_loop pid started [] best = best
match_loop pid started (entry ∷ read) best = elim (match_delta pid started entry) [
  | none ↦ match_loop pid started read best
  | some delta ↦ elim best [
    | none ↦ match_loop pid started read (some (delta, file_stem entry.0))
    | some (bd, id) ↦
        if leb bd delta
        then match_loop pid started read (some (bd, id))
        else match_loop pid started read (some (delta, file_stem entry.0))
  ]
]

unfoldable pub find_matching_trace : Disk → Text → ℕ → ℕ → Option Text
find_matching_trace disk trace_dir pid started = elim (read_dir disk trace_dir) [
  | err _ ↦ none
  | ok read ↦ map_some (λ found. found.1) (match_loop pid started read none)
]

-- `Map::insert`, which keeps the keys sorted.
unfoldable pub text_lt : Text → Text → Bool
text_lt [] [] = false
text_lt [] (_ ∷ _) = true
text_lt (_ ∷ _) [] = false
text_lt (c ∷ s) (d ∷ t) = let rest = text_lt s t in if nat_beq c d then rest else ltb c d

unfoldable pub insert_field : Text → Value → Fields → Fields
insert_field k v end = field k v end
insert_field k v (field j w fs) =
    let rest = field j w (insert_field k v fs) in
    if k == j then field j v fs else if text_lt k j then field k v (field j w fs) else rest

unfoldable pub insert_all : Fields → Fields → Fields
insert_all end merged = merged
insert_all (field k v new_map) merged = insert_all new_map (insert_field k v merged)

abbrev pub fields_of : Value → Fields
fields_of (object map) = map
fields_of _ = end

-- `serde_json::from_slice` and `to_vec`.
pub record JsonBytes : Type 0 where
  pub from_slice : List ℕ → Option Value
  pub to_vec : Value → List ℕ

abbrev pub sidecar_path : Text → Text → Text
sidecar_path trace_dir id = join trace_dir (id ++ codes ".client-metrics.json")

-- The id that a posted body belongs to.
unfoldable pub metrics_id : Disk → Text → ClientMetricsBody → Text
metrics_id disk trace_dir body =
    unwrap_or (find_matching_trace disk trace_dir body.pid body.started_at_unix_micros)
      (codes "orphan-" ++ show_nat body.pid ++ codes "-" ++ show_nat body.started_at_unix_micros)

module _ (bytes : JsonBytes) where
  -- What the file holds already, where it can be read and is an object.
  unfoldable pub existing_metrics : Disk → Text → Fields
  existing_metrics disk sidecar = elim (read disk sidecar) [
    | err _ ↦ end
    | ok existing ↦ elim (bytes.from_slice existing) [ none ↦ end | some v ↦ fields_of v ]
  ]

  unfoldable pub merged_metrics : ClientMetricsBody → Fields → Fields
  merged_metrics body existing =
      insert_field (codes "started_at_unix_micros") (number (pos_int body.started_at_unix_micros)) (
        insert_field (codes "pid") (number (pos_int body.pid))
          (insert_all (fields_of body.extra) existing))

  -- `post_client_metrics`: the disk, and the id of the reply.
  unfoldable pub post_client_metrics : ApiState → Disk → ClientMetricsBody → ApiResult (Disk × Text)
  post_client_metrics state disk body =
      let trace_id = metrics_id disk state.trace_dir body in
      let sidecar = sidecar_path state.trace_dir trace_id in
      let merged = merged_metrics body (existing_metrics disk sidecar) in
      do
        written ← or_internal (
            with_context (write disk sidecar (bytes.to_vec (object merged)))
              (codes "writing " ++ sidecar))
        answer (written, trace_id)

  unfoldable pub get_client_metrics : ApiState → Disk → Text → ApiResult Value
  get_client_metrics state disk id =
      let path = sidecar_path state.trace_dir id in
      if not (exists disk path) then answer null else (do
        read ← or_internal (with_context (read disk path) (codes "reading " ++ path))
        elim (bytes.from_slice read) [
          | none ↦ refuse (internal (codes "parsing " ++ path))
          | some value ↦ answer value
        ])
