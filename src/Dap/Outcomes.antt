-- ===== src/Dap/Outcomes.antt =====
-- daemon/src/dap.rs: what a handler writes, and when it fails instead.
use php_periscope.Common.{
  ℕ, ◌+◌, ◌%◌, Option, none, some, List, [], ◌∷◌, ◌++◌, Bool, true, false, not, ◌&&◌, list_eq,
  nat_eq, pair_eq, ◌≡◌, refl, ap, ◌∙◌, if◌then◌else◌, unwrap_or, and_then, Option-cases, inl, inr,
}
use mathlib.Core.List.{append_assoc}
use php_periscope.Common.Text.{Text, codes}
use php_periscope.Common.Results.{Result, ok, err}
use php_periscope.Json.{Value, get_u64, as_str}
use php_periscope.Trace.{TraceJson}
use php_periscope.Replay.Index.{build}
use php_periscope.Replay.Cursor.{ReplayCursor, reverse_continue, stack, StepKind}
use php_periscope.Dap.Session.{
  DapServer, DapResponse, DapEvent, Sent, response, notice, write_response, write_event,
}
use php_periscope.Dap.Requests.{
  Handled, on_initialize, on_threads, on_step, on_continue, replay_continue, live_release,
  continued, on_set_breakpoints, set_points, on_evaluate, on_scopes, on_variables, loaded_frame,
  u32_mod,
}
use php_periscope.Dap.Dispatch.{Env, on_stack_trace, on_launch, launch, trace_argument}

-- After the response nothing is written, or one event with the next number.
abbrev pub Trails : ℕ → List Sent → ℕ → Type 0
Trails n [] m = m ≡ n
Trails n (notice e ∷ []) m = (e.seq ≡ n) × (m ≡ n + 1)
Trails n (response r ∷ _) m = ⊥
Trails n (notice e ∷ (_ ∷ _)) m = ⊥

-- To what was written, one response to the request is added, with the next number, and then at
-- most one event, with the number after it.
abbrev pub Answered : ℕ → DapServer → DapServer → Type 0
Answered seq s s' =
    (r : DapResponse) × (evs : List Sent) × (s'.out ≡ s.out ++ response r ∷ evs)
    × (r.request_seq ≡ seq)
    × (r.seq ≡ s.out_seq)
    × Trails (s.out_seq + 1) evs s'.out_seq

-- The request was answered; or the handler returned an error, or did not return, and then for the
-- reason that is given.
abbrev pub Outcome : (Text → Type 0) → Type 0 → ℕ → DapServer → Handled → Type 0
Outcome Fails Stops seq s none = Stops
Outcome Fails Stops seq s (some (err e)) = Fails e
Outcome Fails Stops seq s (some (ok s')) = Answered seq s s'

-- What a `launch` opens.
abbrev pub opens : Env → Value → Option (Result TraceJson)
opens env args = and_then (and_then (trace_argument env args) as_str) env.open_trace

-- A `launch` of a trace that does not decode.
abbrev pub FailsToOpen : Env → Text → Value → Text → Type 0
FailsToOpen env command args e = (command ≡ codes "launch") × (opens env args ≡ some (err e))

-- What does not return within the fuel, or panics: the traversal of a launched trace, the chain of
-- parents of a `stackTrace`, and the reads of a continue.
pub data Stops (env : Env) (fuel : ℕ) (command : Text) (args : Value) (s : DapServer) : Type 0 where
  at_launch :
      (trace : TraceJson)
      → command ≡ codes "launch"
      → opens env args ≡ some (ok trace)
      → build fuel trace ≡ none
      → Stops env fuel command args s
  at_stack :
      (c : ReplayCursor)
      → command ≡ codes "stackTrace"
      → s.state.cursor ≡ some c
      → stack fuel c ≡ none
      → Stops env fuel command args s
  at_reverse :
      (c : ReplayCursor)
      → command ≡ codes "reverseContinue"
      → s.state.cursor ≡ some c
      → reverse_continue c s.state.breakpoints ≡ none
      → Stops env fuel command args s

abbrev written : ℕ → ℕ → Text → Bool → Option Value → Option Text → DapResponse
written seq request_seq command success body message = record {
  seq = seq;
  request_seq = request_seq;
  success = success;
  command = command;
  body = body;
  message = message;
}

-- A response written by a server that has written what `s` has.
pub response_lem :
    (seq : ℕ) (command : Text) (success : Bool) (body : Option Value) (message : Option Text)
    (s : DapServer) (t : DapServer)
    → t.out ≡ s.out
    → t.out_seq ≡ s.out_seq
    → Answered seq s (write_response seq command success body message t)
unfolding write_response
response_lem seq command success body message s t same next =
    let r : DapResponse = written t.out_seq seq command success body message in
    (r, [], ap (λ o. o ++ response r ∷ []) same, refl, next, ap (λ n. n + 1) next)

event_lem :
    (seq : ℕ) (command : Text) (success : Bool) (body : Option Value) (message : Option Text)
    (event : Text) (about : Option Value) (s : DapServer) (t : DapServer)
    → t.out ≡ s.out
    → t.out_seq ≡ s.out_seq
    → Answered seq s (write_event event about (write_response seq command success body message t))
unfolding write_response write_event
event_lem seq command success body message event about s t same next =
    let r : DapResponse = written t.out_seq seq command success body message in
    let e : DapEvent = record { seq = t.out_seq + 1; event = event; body = about } in
    (
      r,
      notice e ∷ [],
      append_assoc t.out (response r ∷ []) (notice e ∷ [])
          ∙ ap (λ o. o ++ response r ∷ notice e ∷ []) same,
      refl,
      next,
      (ap (λ n. n + 1) next, ap (λ n. n + 1 + 1) next),
    )

module _ (Fails : Text → Type 0) (Halts : Type 0) where
  pub either :
      (seq : ℕ) (s : DapServer) (b : Bool) (x y : Handled)
      → (b ≡ true → Outcome Fails Halts seq s x)
      → Outcome Fails Halts seq s y
      → Outcome Fails Halts seq s (if b then x else y)
  either seq s true x y p q = p refl
  either seq s false x y p q = q

  pub replay_continue-Outcome :
      (seq : ℕ) (command : Text) (reverse : Bool) (s : DapServer)
      → (continued reverse s.state.breakpoints s.state.cursor ≡ none → Halts)
      → Outcome Fails Halts seq s (replay_continue seq command reverse s)
  unfolding replay_continue
  replay_continue-Outcome seq command reverse s halts =
      elim (Option-cases (continued reverse s.state.breakpoints s.state.cursor)) [
        | inl stuck ↦ rw (replay_continue, stuck) (halts stuck)
        | inr (c, moved) ↦
            rw (replay_continue, moved) (event_lem seq command true none none _ _ s _ refl refl)
      ]

  pub on_continue-Outcome :
      (seq : ℕ) (command : Text) (reverse : Bool) (s : DapServer)
      → (continued reverse s.state.breakpoints s.state.cursor ≡ none → Halts)
      → Outcome Fails Halts seq s (on_continue seq command reverse s)
  unfolding on_continue live_release
  on_continue-Outcome seq command reverse s halts = elim (Option-cases s.bus) [
    | inl alone ↦ rw (on_continue, alone) (replay_continue-Outcome seq command reverse s halts)
    | inr (bus, linked) ↦
        rw (on_continue, linked)
          (either seq s (not reverse && s.state.live_paused) _ _
            (λ live. event_lem seq command true none none _ _ s _ refl refl)
            (replay_continue-Outcome seq command reverse s halts))
  ]

  pub on_scopes-Outcome :
      (seq : ℕ) (args : Value) (s : DapServer) → Outcome Fails Halts seq s (on_scopes seq args s)
  unfolding on_scopes
  on_scopes-Outcome seq args s =
      elim (Option-cases
        (loaded_frame s.state (unwrap_or (get_u64 args (codes "frameId")) 0 % u32_mod))) [
          | inl gone ↦
              rw (on_scopes, gone) (response_lem seq (codes "scopes") false none _ s s refl refl)
          | inr (f, found) ↦
              rw (on_scopes, found) (response_lem seq (codes "scopes") true _ none s _ refl refl)
        ]

  pub on_stack_trace-Outcome :
      (env : Env) (fuel seq : ℕ) (s : DapServer)
      → ((c : ReplayCursor) → s.state.cursor ≡ some c → stack fuel c ≡ none → Halts)
      → Outcome Fails Halts seq s (on_stack_trace env fuel seq s)
  unfolding on_stack_trace
  on_stack_trace-Outcome env fuel seq s halts = elim (Option-cases s.state.cursor) [
    | inl idle ↦
        rw (on_stack_trace, idle) (response_lem seq (codes "stackTrace") false none _ s s refl refl)
    | inr (c, loaded) ↦ elim (Option-cases (stack fuel c)) [
      | inl stuck ↦ rw (on_stack_trace, loaded, stuck) (halts c loaded stuck)
      | inr (frames, shown) ↦
          rw (on_stack_trace, loaded, shown)
            (response_lem seq (codes "stackTrace") true _ none s s refl refl)
    ]
  ]

  pub launch-Outcome :
      (env : Env) (fuel seq : ℕ) (trace : TraceJson) (s : DapServer)
      → (build fuel trace ≡ none → Halts)
      → Outcome Fails Halts seq s (launch env fuel seq trace s)
  unfolding launch
  launch-Outcome env fuel seq trace s halts = elim (Option-cases (build fuel trace)) [
    | inl stuck ↦ rw (launch, stuck) (halts stuck)
    | inr (index, built) ↦
        rw (launch, built) (event_lem seq (codes "launch") true none none _ _ s _ refl refl)
  ]

  pub on_launch-Outcome :
      (env : Env) (fuel seq : ℕ) (args : Value) (s : DapServer)
      → ((e : Text) → opens env args ≡ some (err e) → Fails e)
      → ((trace : TraceJson) → opens env args ≡ some (ok trace) → build fuel trace ≡ none → Halts)
      → Outcome Fails Halts seq s (on_launch env fuel seq args s)
  unfolding on_launch
  on_launch-Outcome env fuel seq args s fails halts = elim (Option-cases (opens env args)) [
    | inl missing ↦
        rw (on_launch, missing) (response_lem seq (codes "launch") false none _ s s refl refl)
    | inr (err e, opened) ↦ rw (on_launch, opened) (fails e opened)
    | inr (ok trace, opened) ↦
        rw (on_launch, opened) (launch-Outcome env fuel seq trace s (halts trace opened))
  ]

  pub on_initialize-Outcome :
      (seq : ℕ) (s : DapServer) → Outcome Fails Halts seq s (on_initialize seq s)
  unfolding on_initialize
  on_initialize-Outcome seq s = event_lem seq (codes "initialize") true _ none _ _ s s refl refl

  pub on_threads-Outcome : (seq : ℕ) (s : DapServer) → Outcome Fails Halts seq s (on_threads seq s)
  unfolding on_threads
  on_threads-Outcome seq s = response_lem seq (codes "threads") true _ none s s refl refl

  pub on_variables-Outcome :
      (seq : ℕ) (args : Value) (s : DapServer) → Outcome Fails Halts seq s (on_variables seq args s)
  unfolding on_variables
  on_variables-Outcome seq args s = response_lem seq (codes "variables") true _ none s s refl refl

  pub on_evaluate-Outcome :
      (seq : ℕ) (args : Value) (s : DapServer) → Outcome Fails Halts seq s (on_evaluate seq args s)
  unfolding on_evaluate
  on_evaluate-Outcome seq args s = response_lem seq (codes "evaluate") true _ none s s refl refl

  pub on_step-Outcome :
      (seq : ℕ) (command : Text) (kind : StepKind) (s : DapServer)
      → Outcome Fails Halts seq s (on_step seq command kind s)
  unfolding on_step
  on_step-Outcome seq command kind s = event_lem seq command true none none _ _ s _ refl refl

  pub on_set_breakpoints-Outcome :
      (seq : ℕ) (args : Value) (s : DapServer)
      → Outcome Fails Halts seq s (on_set_breakpoints seq args s)
  unfolding on_set_breakpoints set_points
  on_set_breakpoints-Outcome seq args s =
      response_lem seq (codes "setBreakpoints") true _ none s _ refl refl
