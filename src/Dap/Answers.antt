-- ===== src/Dap/Answers.antt =====
-- daemon/src/dap.rs: what every request is answered with, and when a handler fails instead.
use php_periscope.Common.{
  ℕ, Option, none, some, [], ◌++◌, Bool, true, false, ◌==◌, list_eq, nat_eq, pair_eq, ◌≡◌, refl,
  arith, if◌then◌else◌, unwrap_or,
}
use php_periscope.Common.Text.{Text, codes}
use php_periscope.Common.Results.{ok}
use php_periscope.Json.{Value, null}
use php_periscope.Replay.Cursor.{
  ReplayCursor, BreakpointSet, reverse_continue, into, over, out, back,
}
use php_periscope.Dap.Session.{DapMessage, DapServer, write_response}
use php_periscope.Dap.Requests.{
  Handled, on_initialize, on_threads, on_step, on_continue, continued, on_set_breakpoints,
  on_evaluate, on_scopes, on_variables,
}
use php_periscope.Dap.Dispatch.{Env, on_stack_trace, on_launch, dispatch, handle}
use php_periscope.Dap.Outcomes.{
  Outcome, FailsToOpen, Stops, at_launch, at_stack, at_reverse, response_lem, either,
  on_continue-Outcome, on_scopes-Outcome, on_stack_trace-Outcome, on_launch-Outcome,
  on_initialize-Outcome, on_threads-Outcome, on_variables-Outcome, on_evaluate-Outcome,
  on_step-Outcome, on_set_breakpoints-Outcome,
}

-- Going forward reads nothing out of range.
continued_forward :
    (c : Option ReplayCursor) (bps : BreakpointSet) → continued false bps c ≡ none → ⊥
unfolding continued
continued_forward none bps h = absurd (cc h)
continued_forward (some c) bps h = absurd (cc h)

continued_back :
    (cursor : Option ReplayCursor) (bps : BreakpointSet)
    → continued true bps cursor ≡ none
    → (c : ReplayCursor) × (cursor ≡ some c) × (reverse_continue c bps ≡ none)
unfolding continued
continued_back none bps h = absurd (cc h)
continued_back (some c) bps h = (c, refl, ground arith)

-- `Outcome` as a record, which unification sees through.
record Shown (Fails : Text → Type 0) (Halts : Type 0) (seq : ℕ) (s : DapServer) (h : Handled)
    : Type 0 where
  shown : Outcome Fails Halts seq s h

or_else :
    {Fails : Text → Type 0} {Halts : Type 0} {seq : ℕ} {s : DapServer} (command name : Text)
    (x : Handled) {y : Handled}
    → (command ≡ name → Outcome Fails Halts seq s x)
    → Shown Fails Halts seq s y
    → Shown Fails Halts seq s (if command == name then x else y)
or_else {Fails} {Halts} {seq} {s} command name x {y} p q = record {
  shown =
      either Fails Halts seq s (command == name) x y
        (λ same. p ((list_eq.same_iff command name).0 same)) q.shown;
}

module _ (env : Env) (fuel seq : ℕ) (command : Text) (args : Value) (s : DapServer) where
  abbrev Meets : Handled → Type 0
  Meets = Shown (FailsToOpen env command args) (Stops env fuel command args s) seq s

  abbrev F : Text → Type 0
  F = FailsToOpen env command args

  abbrev H : Type 0
  H = Stops env fuel command args s

  reverse-Stops :
      command ≡ codes "reverseContinue"
      → continued true s.state.breakpoints s.state.cursor ≡ none
      → Stops env fuel command args s
  reverse-Stops e stuck =
      let (c, loaded, panics) = continued_back s.state.cursor s.state.breakpoints stuck in
      at_reverse c e loaded panics

  plain :
      (name : Text) (success : Bool) (message : Option Text)
      → Outcome
          (FailsToOpen env command args)
          (Stops env fuel command args s)
          seq
          s
          (some (ok (write_response seq name success none message s)))
  plain name success message = response_lem seq name success none message s s refl refl

  -- The arms from the last to the first.
  dispatch-Shown : Meets (dispatch env fuel seq command args s)
  unfolding dispatch
  dispatch-Shown =
      let other : Meets (
          some (
            ok (
              write_response seq command false none
                (some (codes "unsupported DAP command: " ++ command)) s))) =
        record {
          shown = plain command false (some (codes "unsupported DAP command: " ++ command));
        } in
      let from_set_breakpoints =
        or_else command (codes "setBreakpoints") (on_set_breakpoints seq args s)
          (λ e. on_set_breakpoints-Outcome F H seq args s) other in
      let from_disconnect =
        or_else command (codes "disconnect")
          (some (ok (write_response seq (codes "disconnect") true none none s)))
          (λ e. plain (codes "disconnect") true none) from_set_breakpoints in
      let from_evaluate =
        or_else command (codes "evaluate") (on_evaluate seq args s)
          (λ e. on_evaluate-Outcome F H seq args s) from_disconnect in
      let from_reverse_continue =
        or_else command (codes "reverseContinue") (on_continue seq (codes "reverseContinue") true s)
          (λ e. on_continue-Outcome F H seq (codes "reverseContinue") true s (reverse-Stops e))
          from_evaluate in
      let from_step_back =
        or_else command (codes "stepBack") (on_step seq (codes "stepBack") back s)
          (λ e. on_step-Outcome F H seq (codes "stepBack") back s) from_reverse_continue in
      let from_step_out =
        or_else command (codes "stepOut") (on_step seq (codes "stepOut") out s)
          (λ e. on_step-Outcome F H seq (codes "stepOut") out s) from_step_back in
      let from_step_in =
        or_else command (codes "stepIn") (on_step seq (codes "stepIn") into s)
          (λ e. on_step-Outcome F H seq (codes "stepIn") into s) from_step_out in
      let from_next =
        or_else command (codes "next") (on_step seq (codes "next") over s)
          (λ e. on_step-Outcome F H seq (codes "next") over s) from_step_in in
      let from_continue =
        or_else command (codes "continue") (on_continue seq (codes "continue") false s)
          (λ e.
            on_continue-Outcome F H seq (codes "continue") false s
              (λ stuck. absurd (continued_forward s.state.cursor s.state.breakpoints stuck)))
          from_next in
      let from_variables =
        or_else command (codes "variables") (on_variables seq args s)
          (λ e. on_variables-Outcome F H seq args s) from_continue in
      let from_scopes =
        or_else command (codes "scopes") (on_scopes seq args s)
          (λ e. on_scopes-Outcome F H seq args s) from_variables in
      let from_stack_trace =
        or_else command (codes "stackTrace") (on_stack_trace env fuel seq s)
          (λ e. on_stack_trace-Outcome F H env fuel seq s (λ c. at_stack c e)) from_scopes in
      let from_threads =
        or_else command (codes "threads") (on_threads seq s) (λ e. on_threads-Outcome F H seq s)
          from_stack_trace in
      let from_configuration_done =
        or_else command (codes "configurationDone")
          (some (ok (write_response seq (codes "configurationDone") true none none s)))
          (λ e. plain (codes "configurationDone") true none) from_threads in
      let from_launch =
        or_else command (codes "launch") (on_launch env fuel seq args s)
          (λ e.
            on_launch-Outcome F H env fuel seq args s (λ text opened. (e, opened))
              (λ trace. at_launch trace e))
          from_configuration_done in
      or_else command (codes "initialize") (on_initialize seq s)
        (λ e. on_initialize-Outcome F H seq s) from_launch

-- Whatever a request asks for, if `handle` neither fails nor stops, it adds to what was written
-- exactly one response, for the sequence number of the request and with the next number of the
-- session, and then at most one event, with the number after it; the session's number is then the
-- next again. It fails only on a "launch" whose trace is there and does not decode, with that
-- error. It gives no result only on a "launch" whose trace the traversal of `build` does not
-- finish within the fuel, on a "stackTrace" whose chain of parents does not end within the fuel,
-- and on a "reverseContinue" whose read of the preorder would panic.
pub handle-Outcome :
    (env : Env) (fuel : ℕ) (msg : DapMessage) (s : DapServer)
    → msg.msg_type ≡ codes "request"
    → Outcome
        (FailsToOpen env (unwrap_or msg.command []) (unwrap_or msg.arguments null))
        (Stops env fuel (unwrap_or msg.command []) (unwrap_or msg.arguments null) s)
        msg.seq
        s
        (handle env fuel msg s)
unfolding handle
handle-Outcome env fuel msg s request =
    rw request
      (dispatch-Shown env fuel msg.seq (unwrap_or msg.command []) (unwrap_or msg.arguments null)
        s).shown
