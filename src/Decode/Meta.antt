-- ===== src/Decode/Meta.antt =====
-- daemon/src/trace_view.rs: `read_headers` and `decode_meta`.
use php_periscope.Common.{
  Option, none, some, List, [], ◌∷◌, Bool, true, false, ◌&&◌, not, ◌==◌, list_eq, if◌then◌else◌,
  nat_beq, map, and_then, map_some,
}
use php_periscope.Common.Text.{Text, codes}
use php_periscope.Common.Results.{Result, ok, err, ◌>>=◌}
use php_periscope.Json.{Value, null, string, as_array, as_object}
use php_periscope.Trace.{HeaderJson, RequestJson, ResponseJson, MetaJson}
use php_periscope.Decode.Raw.{
  RawHeader, RawHeaders, RawRequest, RawResponse, RawMeta, JsonText, text_of, text_or_empty,
}

abbrev pub is_empty_text : Text → Bool
is_empty_text [] = true
is_empty_text (_ ∷ _) = false

abbrev pub json_bag_sentinel : Text
json_bag_sentinel = codes "__json__"

module _ (json : JsonText) where
  -- The text of a member's value.
  unfoldable pub bag_value : Value → Text
  bag_value (string s) = s
  bag_value null = []
  bag_value other = json.print other

  unfoldable pub bag_entries : List (Text × Value) → List HeaderJson
  bag_entries [] = []
  bag_entries ((k, v) ∷ obj) =
      record { name = k; value = bag_value v; redacted = false } ∷ bag_entries obj

  unfoldable pub expand_json_bag : Text → Option (List HeaderJson)
  expand_json_bag value = and_then (json.from_str value) (λ parsed. elim (as_array parsed) [
    | some [] ↦ some []
    | _ ↦ map_some bag_entries (as_object parsed)
  ])

  unfoldable pub read_header : RawHeader → HeaderJson
  read_header h = record {
    name = text_or_empty h.name;
    value = text_or_empty h.value;
    redacted = h.redacted;
  }

  -- What the only header expands to, if it is the sentinel with a bag that parses.
  unfoldable pub sentinel_bag : RawHeader → Option (List HeaderJson)
  sentinel_bag only = elim only.name [
    | err _ ↦ none
    | ok name ↦ elim only.value [
      | err _ ↦ none
      | ok value ↦ elim name [
        | none ↦ none
        | some n ↦ if n == json_bag_sentinel then and_then value expand_json_bag else none
      ]
    ]
  ]

  unfoldable pub read_headers : List RawHeader → List HeaderJson
  read_headers (only ∷ []) = elim (sentinel_bag only) [
    | some expanded ↦ expanded
    | none ↦ read_header only ∷ []
  ]
  read_headers list = map read_header list

  abbrev pub headers_of : RawHeaders → Result (List HeaderJson)
  headers_of r = r >>= λ list. ok (read_headers list)

  unfoldable pub decode_request : RawRequest → Result (Option RequestJson)
  decode_request r =
      let method = text_or_empty r.method in
      let uri = text_or_empty r.uri in
      if is_empty_text method && is_empty_text uri then ok none else do
        headers ← headers_of r.headers
        cookies ← headers_of r.cookies
        query ← headers_of r.query
        post_params ← headers_of r.post_params
        ok (
            some (record {
              method = method;
              uri = uri;
              remote_addr = text_or_empty r.remote_addr;
              scheme = text_or_empty r.scheme;
              headers = headers;
              cookies = cookies;
              query = query;
              post_params = post_params;
              total_body_bytes = r.total_body_bytes;
              body_truncated = r.body_truncated;
            }))

  unfoldable pub decode_response : RawResponse → Result (Option ResponseJson)
  decode_response r = if nat_beq r.status_code 0 && not r.has_headers then ok none else do
    headers ← headers_of r.headers
    ok (
        some (record {
          status_code = r.status_code;
          headers = headers;
          total_body_bytes = r.total_body_bytes;
          body_truncated = r.body_truncated;
          duration_micros = r.duration_micros;
          peak_memory_bytes = r.peak_memory_bytes;
        }))

  -- `if meta.has_…() { … } else { None }`
  abbrev pub when_present {ℓ κ} :
      {R : Type ℓ} {A : Type κ} → (R → Result (Option A)) → Option (Result R) → Result (Option A)
  when_present decode none = ok none
  when_present decode (some r) = r >>= decode

  unfoldable pub decode_meta : RawMeta → Result MetaJson
  decode_meta meta = do
    request ← when_present decode_request meta.request
    response ← when_present decode_response meta.response
    php_version ← text_of meta.php_version
    periscope_version ← text_of meta.periscope_version
    sapi ← text_of meta.sapi
    entry_point ← text_of meta.entry_point
    working_dir ← text_of meta.working_dir
    ok (record {
      php_version = php_version;
      periscope_version = periscope_version;
      sapi = sapi;
      entry_point = entry_point;
      working_dir = working_dir;
      hostname = text_or_empty meta.hostname;
      pid = meta.pid;
      started_at_unix_micros = meta.started_at_unix_micros;
      duration_micros = meta.duration_micros;
      request = request;
      response = response;
    })
