-- ===== src/Api/Sidecar.antt =====
-- daemon/src/api.rs: client metrics that are posted and read back.
use php_periscope.Common.{
  ℕ, Option, none, some, List, ◌++◌, ◌≡◌, refl, ap, ◌∙◌, arith, true, if◌then◌else◌, ◌==◌, list_eq,
  list_beq_iff, unwrap_or,
}
use php_periscope.Common.Text.{Text, codes}
use php_periscope.Common.Results.{ok}
use php_periscope.Common.Maps.{get, insert, get-insert}
use php_periscope.Json.{Value, number, pos_int, object, Fields, end, field, fields_get}
use php_periscope.Api.Reply.{
  answer, or_internal, with_context, answer_of_bind, ok_of_or_internal, ok_of_with_context,
}
use php_periscope.Api.Disk.{Disk, read, write, exists, new_file}
use php_periscope.Api.Traces.{ApiState}
use php_periscope.Api.Names.{of_unless_fault}
use php_periscope.Api.Metrics.{
  ClientMetricsBody, JsonBytes, insert_field, insert_all, fields_of, sidecar_path, metrics_id,
  existing_metrics, merged_metrics, post_client_metrics, get_client_metrics,
}

get-insert_field :
    (k j : Text) (v : Value) (fs : Fields)
    → fields_get (insert_field k v fs) j ≡ (if k == j then some v else fields_get fs j)
unfolding insert_field fields_get
get-insert_field k j v end = refl
get-insert_field k j v (field i w fs) =
    ground (arith, list_beq_iff k j, list_beq_iff k i, list_beq_iff i j, get-insert_field k j v fs)

-- The value of a key after an object's members replace it, the last of them where it stands twice.
abbrev pub newest : Fields → Text → Option Value → Option Value
newest end k old = old
newest (field j v fs) k old = newest fs k (if j == k then some v else old)

get-insert_all :
    (new_map merged : Fields) (k : Text)
    → fields_get (insert_all new_map merged) k ≡ newest new_map k (fields_get merged k)
unfolding insert_all
get-insert_all end merged k = refl
get-insert_all (field j v new_map) merged k =
    get-insert_all new_map (insert_field j v merged) k
    ∙ ap (newest new_map k) (get-insert_field j k v merged)

-- What a key of the merged metrics holds.
abbrev pub merged_value : ClientMetricsBody → Fields → Text → Option Value
merged_value body existing k =
    if codes "started_at_unix_micros" == k
    then some (number (pos_int body.started_at_unix_micros))
    else if codes "pid" == k
    then some (number (pos_int body.pid))
    else newest (fields_of body.extra) k (fields_get existing k)

get-merged_metrics :
    (bytes : JsonBytes) (body : ClientMetricsBody) (existing : Fields) (k : Text)
    → fields_get (merged_metrics bytes body existing) k ≡ merged_value body existing k
unfolding merged_metrics
get-merged_metrics bytes body existing k =
    rw
      (
        get-insert_field (codes "started_at_unix_micros") k,
        get-insert_field (codes "pid") k,
        get-insert_all (fields_of body.extra) existing k,
      )
      refl

-- A file that is written is read back, where reading it is allowed.
read-write :
    (disk left : Disk) (path : Text) (payload : List ℕ)
    → (unwrap_or (get disk.files path) new_file).read_fault ≡ none
    → write disk path payload ≡ ok left
    → (exists left path ≡ true) × (read left path ≡ ok payload)
unfolding write exists read
read-write disk left path payload allowed written =
    let file = record (unwrap_or (get disk.files path) new_file) {
      bytes = payload;
      modified = disk.clock;
    } in
    let same =
      of_unless_fault (disk.write_fault path) (record disk { files = insert path file disk.files })
        left written in
    let there : get left.files path ≡ some file =
      rw (← same)
        (get-insert path path file disk.files ∙ rw ((list_beq_iff path path).1 refl) refl) in
    (rw (exists, there) refl, rw (read, there, allowed) refl)

get_stored :
    (bytes : JsonBytes) (state : ApiState) (left : Disk) (id : Text) (v : Value)
    → bytes.from_slice (bytes.to_vec v) ≡ some v
    → exists left (sidecar_path state.trace_dir id) ≡ true
    → read left (sidecar_path state.trace_dir id) ≡ ok (bytes.to_vec v)
    → get_client_metrics bytes state left id ≡ answer v
unfolding get_client_metrics
get_stored bytes state left id v decodes there stored = rw (there, stored, decodes) refl

-- Posted metrics that are stored can be read under the id of the reply, when decoding undoes encoding on
-- what is written and the file may be read: they are an object in which the process and the start are those of
-- the body, and every other key has the body's value, or the one that was there before.
pub post_get_lem :
    (bytes : JsonBytes) (state : ApiState) (disk left : Disk) (body : ClientMetricsBody)
    (id k : Text)
    → (let written = object (
          merged_metrics bytes body
            (existing_metrics bytes disk (sidecar_path state.trace_dir id))) in
        bytes.from_slice (bytes.to_vec written) ≡ some written)
    → (unwrap_or (get disk.files (sidecar_path state.trace_dir id)) new_file).read_fault ≡ none
    → post_client_metrics bytes state disk body ≡ answer (left, id)
    → (map : Fields) × (get_client_metrics bytes state left id ≡ answer (object map))
      × (fields_get map k
          ≡ merged_value body (existing_metrics bytes disk (sidecar_path state.trace_dir id)) k)
unfolding post_client_metrics
post_get_lem bytes state disk left body id k decodes allowed posted =
    let trace_id = metrics_id disk state.trace_dir body in
    let sidecar = sidecar_path state.trace_dir trace_id in
    let merged = merged_metrics bytes body (existing_metrics bytes disk sidecar) in
    let payload = bytes.to_vec (object merged) in
    let attempt = with_context (write disk sidecar payload) (codes "writing " ++ sidecar) in
    let (after, written, done) =
      answer_of_bind (or_internal attempt) (λ d. answer (d, trace_id)) (left, id) posted in
    let same : after ≡ left = cc done in
    let named : trace_id ≡ id = cc done in
    let fine : write disk sidecar payload ≡ ok left = rw (← same) (
      ok_of_with_context (write disk sidecar payload) _ after
        (ok_of_or_internal attempt after written)) in
    let (there, stored) = read-write disk left sidecar payload (rw named allowed) fine in
    rw (← named) (
      merged,
      get_stored bytes state left trace_id (object merged) (rw named decodes) there stored,
      get-merged_metrics bytes body (existing_metrics bytes disk sidecar) k,
    )
