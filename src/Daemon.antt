-- ===== src/Daemon.antt =====
-- daemon/src/bin/daemon.rs: what `main` starts, once its arguments are parsed.
use php_periscope.Common.{Option, none, some, List, [], ◌∷◌, ◌++◌, Bool, if◌then◌else◌, unwrap_or}
use php_periscope.Common.Text.{Text, codes}
use php_periscope.Common.Results.{Result, ok, ◌>>=◌}
use php_periscope.Link.{new_bus}
use php_periscope.Api.Reply.{with_context}
use php_periscope.Api.Disk.{Disk, join, member}
use php_periscope.Api.Traces.{ApiState, new_state, with_ui_dir}

record Args : Type 0 where
  trace_dir : Text
  project_root : Option Text
  listen : Text
  socket : Text
  no_http : Bool
  no_socket : Bool
  dap_stdio : Bool
  ui_dir : Option Text

-- The first of some paths that is a directory.
unfoldable find_dir : Disk → List Text → Option Text
find_dir disk [] = none
find_dir disk (p ∷ candidates) = if member p disk.dirs then some p else find_dir disk candidates

unfoldable resolve_ui_dir : Disk → Option Text → Text → Option Text
resolve_ui_dir disk (some d) project_root = if member d disk.dirs then some d else none
resolve_ui_dir disk none project_root =
    find_dir disk (join project_root (codes "ui/dist") ∷ codes "ui/dist" ∷ codes "../ui/dist" ∷ [])

-- A service that is spawned.
data Task : Type 0 where
  http : (state : ApiState) → (listen : Text) → Task
  ext_link : (path : Text) → Task

-- What `main` does with its tasks: it runs the debug adapter beside them until that ends, or waits
-- for a signal, and then aborts them; or it has none and exits with a code.
data Outcome : Type 0 where
  dap_server until_signal : List Task → Outcome
  exit_code_2 : Outcome

unfoldable http_tasks : Disk → Args → Text → List Task
http_tasks disk args project_root =
    if args.no_http
    then []
    else http
        (with_ui_dir (resolve_ui_dir disk args.ui_dir project_root)
          (new_state args.trace_dir project_root new_bus))
        args.listen
      ∷ []

unfoldable socket_tasks : Args → List Task
socket_tasks args = if args.no_socket then [] else ext_link args.socket ∷ []

-- `main`, on how `create_dir_all` ends and on the current directory, where there is one.
unfoldable main : Disk → Result (Unit {0}) → Option Text → Args → Result Outcome
main disk created current_dir args = do
  _ ← with_context created (codes "creating trace dir " ++ args.trace_dir)
  let project_root = unwrap_or args.project_root (unwrap_or current_dir (codes "."))
  let tasks = http_tasks disk args project_root ++ socket_tasks args
  ok (
      if args.dap_stdio
      then dap_server tasks
      else elim tasks [ [] ↦ exit_code_2 | t ∷ ts ↦ until_signal (t ∷ ts) ])
