-- ===== src/Api/Inside.antt =====
-- daemon/src/api.rs: which files a request can change.
use php_periscope.Common.{
  ℕ, ◌+◌, none, List, [], ◌∷◌, ◌++◌, ◌≡◌, refl, ap, ◌∙◌, arith, false, ◌==◌, list_eq, list_beq_iff,
  All, Bool-cases, Option-cases, inl, inr,
}
use php_periscope.Common.Text.{Text, codes}
use php_periscope.Common.Results.{ok, Result-cases}
use php_periscope.Common.Maps.{get, get-insert, get-remove}
use php_periscope.Api.Reply.{
  ApiResult, answer, refuse, or_internal, with_context, answer_of_bind, ok_of_or_internal,
  ok_of_with_context,
}
use php_periscope.Api.Disk.{
  Disk, File, slash, has_char, join, read_dir, remove_file, write, children, child_name, exists,
  member,
}
use php_periscope.Api.Traces.{
  ApiState, is_trace, is_invalid_id, trace_path_for, delete_trace, clear_loop, clear_traces,
}
use php_periscope.Api.Metrics.{
  ClientMetricsBody, JsonBytes, metrics_id, post_client_metrics, existing_metrics, merged_metrics,
}
use php_periscope.Api.Router.{
  Request, delete_all, delete_one, post_metrics, Body, Host, serve, with_trace, changing,
}
use php_periscope.Json.{object}
use php_periscope.Api.Names.{
  of_unless_fault, IsPlain, has_char-append, IsPlain-no_slash, no_slash_of_IsPlain, child_name-join,
  children-IsPlain,
}
use php_periscope.Api.Stems.{metrics_id-no_slash}

-- A path that does not stand directly in the directory.
abbrev pub IsOutside : Text → Text → Type 0
IsOutside dir path = child_name dir path ≡ none

-- Two disks with the same file, or none, at a path.
abbrev pub Keeps : Text → Disk → Disk → Type 0
Keeps path before after = get after.files path ≡ get before.files path

apart : (dir path name : Text) → IsOutside dir path → IsPlain name → (join dir name == path) ≡ false
apart dir path name out plain = elim (Bool-cases (join dir name == path)) [
  | inr other ↦ other
  | inl same ↦
      let moved = ap (child_name dir) ((list_beq_iff (join dir name) path).0 same) in
      absurd (cc (child_name-join dir name plain, moved, out))
]

remove_file-Keeps :
    (dir path name : Text) (disk left : Disk)
    → IsOutside dir path
    → IsPlain name
    → remove_file disk (join dir name) ≡ ok left
    → Keeps path disk left
unfolding remove_file
remove_file-Keeps dir path name disk left out plain e =
    elim (Option-cases (get disk.files (join dir name))) [
      | inl gone ↦ absurd (cc (rw (remove_file, gone) at e))
      | inr (file, found) ↦
          let same = of_unless_fault file.remove_fault _ left (rw (remove_file, found) at e) in
          rw (← same, get-remove (join dir name) path disk.files, apart dir path name out plain)
            refl
    ]

write-Keeps :
    (dir path name : Text) (disk left : Disk) (bytes : List ℕ)
    → IsOutside dir path
    → IsPlain name
    → write disk (join dir name) bytes ≡ ok left
    → Keeps path disk left
unfolding write
write-Keeps dir path name disk left bytes out plain e =
    let same = of_unless_fault (disk.write_fault (join dir name)) _ left e in
    rw (← same, get-insert (join dir name) path _ disk.files, apart dir path name out plain) refl

-- An id without a slash, with a suffix, is a plain name.
suffixed_IsPlain :
    (id suffix : Text) → has_char slash id ≡ false → IsPlain suffix → IsPlain (id ++ suffix)
suffixed_IsPlain [] suffix h k = k
suffixed_IsPlain (c ∷ id) suffix h k =
    IsPlain-no_slash c (id ++ suffix)
      (has_char-append slash (c ∷ id) suffix ∙ rw (h, no_slash_of_IsPlain suffix k) refl)

-- An id that `trace_path_for` accepts makes a path in the directory.
trace_path_for_lem :
    (state : ApiState) (disk : Disk) (id path : Text)
    → trace_path_for state disk id ≡ answer path
    → IsPlain (id ++ codes ".cptrace") × (path ≡ join state.trace_dir (id ++ codes ".cptrace"))
unfolding trace_path_for is_invalid_id
trace_path_for_lem state disk id path e = elim (Bool-cases (is_invalid_id id)) [
  | inl bad ↦ absurd (cc (rw (trace_path_for, bad) at e))
  | inr fine ↦ elim (Bool-cases (exists disk (join state.trace_dir (id ++ codes ".cptrace")))) [
    | inr gone ↦ absurd (cc (rw (trace_path_for, fine, gone) at e))
    | inl there ↦ (
      suffixed_IsPlain id (codes ".cptrace") (ground (arith, fine)) refl,
      cc (rw (trace_path_for, fine, there) at e),
    )
  ]
]

delete_trace-Keeps :
    (state : ApiState) (disk left : Disk) (id path : Text) (n : ℕ)
    → IsOutside state.trace_dir path
    → delete_trace state disk id ≡ answer (left, n)
    → Keeps path disk left
unfolding delete_trace
delete_trace-Keeps state disk left id path n out e =
    let (target, accepted, rest) = answer_of_bind (trace_path_for state disk id) _ (left, n) e in
    let (after, removed, done) =
      answer_of_bind (or_internal (remove_file disk target)) _ (left, n) rest in
    let (plain, where_to) = trace_path_for_lem state disk id target accepted in
    let gone = ok_of_or_internal (remove_file disk target) after removed in
    let same : after ≡ left = cc done in
    remove_file-Keeps state.trace_dir path (id ++ codes ".cptrace") disk left out plain
      (rw (← same, ← where_to) gone)

clear_loop-Keeps :
    (dir path : Text) (read : List (Text × File)) (disk : Disk) (count : ℕ)
    → IsOutside dir path
    → All (λ (e : Text × File). IsPlain e.0) read
    → Keeps path disk (clear_loop dir read disk count).0
unfolding clear_loop
clear_loop-Keeps dir path [] disk count out plain = refl
clear_loop-Keeps dir path ((name, file) ∷ read) disk count out (here, plain) =
    let skip = clear_loop-Keeps dir path read disk count out plain in
    elim (Option-cases file.entry_fault) [
      | inr (e, bad) ↦ rw (clear_loop, bad) refl
      | inl fine ↦ elim (Bool-cases (is_trace name)) [
        | inr other ↦ rw (clear_loop, fine, other) skip
        | inl trace ↦ elim (Result-cases (remove_file disk (join dir name))) [
          | inr (e, kept) ↦ rw (clear_loop, fine, trace, kept) skip
          | inl (left, removed) ↦
              rw (clear_loop, fine, trace, removed)
                (clear_loop-Keeps dir path read left (count + 1) out plain
                  ∙ remove_file-Keeps dir path name disk left out here removed)
        ]
      ]
    ]

clear_traces-Keeps :
    (state : ApiState) (path : Text) (disk : Disk)
    → IsOutside state.trace_dir path
    → Keeps path disk (clear_traces state disk).0
unfolding clear_traces read_dir
clear_traces-Keeps state path disk out = elim (Bool-cases (member state.trace_dir disk.dirs)) [
  | inr missing ↦ rw (clear_traces, read_dir, missing) refl
  | inl there ↦
      rw (clear_traces, read_dir, there)
        (clear_loop-Keeps state.trace_dir path (children state.trace_dir disk.files) disk 0 out
          (children-IsPlain state.trace_dir disk.files))
]

post_client_metrics-Keeps :
    (bytes : JsonBytes) (state : ApiState) (disk left : Disk) (body : ClientMetricsBody)
    (path id : Text)
    → IsOutside state.trace_dir path
    → post_client_metrics bytes state disk body ≡ answer (left, id)
    → Keeps path disk left
unfolding post_client_metrics
post_client_metrics-Keeps bytes state disk left body path id out e =
    let trace_id = metrics_id disk state.trace_dir body in
    let target = trace_id ++ codes ".client-metrics.json" in
    let sidecar = join state.trace_dir target in
    let payload =
      bytes.to_vec (object (merged_metrics bytes body (existing_metrics bytes disk sidecar))) in
    let attempt = with_context (write disk sidecar payload) (codes "writing " ++ sidecar) in
    let (after, written, done) =
      answer_of_bind (or_internal attempt) (λ d. answer (d, trace_id)) (left, id) e in
    let same : after ≡ left = cc done in
    let fine =
      ok_of_with_context (write disk sidecar payload) _ after
        (ok_of_or_internal attempt after written) in
    write-Keeps state.trace_dir path target disk left payload out
      (suffixed_IsPlain trace_id (codes ".client-metrics.json")
        (metrics_id-no_slash disk state.trace_dir body) refl)
      (rw (← same) fine)

changing-Keeps {ℓ} :
    {A : Type ℓ} (host : Host) (api : ApiState) (path : Text) (disk : Disk) (body : A → Body)
    (r : ApiResult (Disk × A))
    → ((left : Disk) (a : A) → r ≡ answer (left, a) → Keeps path disk left)
    → Keeps path disk (changing host api disk body r).0
unfolding changing
changing-Keeps host api path disk body (answer (left, a)) keeps = keeps left a refl
changing-Keeps host api path disk body (refuse e) keeps = refl

-- Whatever the request, every file that does not stand directly in the trace directory is after it
-- what it was before, and none appears: deleting and clearing remove nothing there, and posted
-- metrics are written nowhere else.
pub serve_inside :
    (host : Host) (api : ApiState) (request : Request) (disk : Disk) (path : Text)
    → child_name api.trace_dir path ≡ none
    → get (serve host api request disk).0.files path ≡ get disk.files path
unfolding serve with_trace
serve_inside host api request disk path out =
    elim request as (λ q. get (serve host api q disk).0.files path ≡ get disk.files path) [
      | delete_all ↦ clear_traces-Keeps api path disk out
      | delete_one id ↦
          changing-Keeps host api path disk _ _
            (λ left n. delete_trace-Keeps api disk left id path n out)
      | post_metrics body ↦
          changing-Keeps host api path disk _ _
            (λ left id. post_client_metrics-Keeps host.json_bytes api disk left body path id out)
      | _ ↦ refl
    ]
