-- ===== src/Dap/Session.antt =====
-- daemon/src/dap.rs: the state of a session, and the messages that it writes. A message is the
-- value that is serialised; Dap/Wire has the bytes. The JSON objects have their
-- members as the source writes them.
use php_periscope.Common.{ℕ, ◌+◌, Option, none, some, List, [], ◌∷◌, ◌++◌, Bool, true, false}
use php_periscope.Common.Text.{Text, codes}
use php_periscope.Common.Maps.{Map}
use php_periscope.Json.{
  Value, Items, Fields, bool, number, string, array, object, nil, cons, end, field, pos_int,
}
use php_periscope.Link.{LinkBus, ExtMessage, breakpoint_hit, hello, request_finished}
use php_periscope.Replay.Cursor.{ReplayCursor, BreakpointSet}

pub record DapMessage : Type 0 where
  pub seq : ℕ
  pub msg_type : Text
  pub command : Option Text
  pub arguments : Option Value

pub record DapResponse : Type 0 where
  pub seq : ℕ
  pub request_seq : ℕ
  pub success : Bool
  pub command : Text
  pub body : Option Value
  pub message : Option Text

pub record DapEvent : Type 0 where
  pub seq : ℕ
  pub event : Text
  pub body : Option Value

-- What is written to the client.
pub data Sent : Type 0 where
  response : DapResponse → Sent
  notice : DapEvent → Sent

pub record PendingEvent : Type 0 where
  pub event : Text
  pub body : Option Value

pub record SessionState : Type 0 where
  pub cursor : Option ReplayCursor
  pub breakpoints : BreakpointSet
  pub var_refs : Map ℕ ℕ
  pub next_var_ref : ℕ
  pub live_paused : Bool

-- `DapServer`, with what it has written and the events that wait for its loop.
pub record DapServer : Type 0 where
  pub out : List Sent
  pub out_seq : ℕ
  pub state : SessionState
  pub bus : Option LinkBus
  pub pending_events : List PendingEvent

-- `SessionState::default` and `DapServer::new`
unfoldable pub default_state : SessionState
default_state = record {
  cursor = none;
  breakpoints = record { points = [] };
  var_refs = [];
  next_var_ref = 1000;
  live_paused = false;
}

unfoldable pub new_server : DapServer
new_server = record {
  out = [];
  out_seq = 1;
  state = default_state;
  bus = none;
  pending_events = [];
}

abbrev pub num : ℕ → Value
num n = number (pos_int n)

abbrev pub fields_of_list : List (Text × Value) → Fields
fields_of_list [] = end
fields_of_list ((k, v) ∷ rest) = field k v (fields_of_list rest)

abbrev pub items_of_list : List Value → Items
items_of_list [] = nil
items_of_list (v ∷ rest) = cons v (items_of_list rest)

-- `json!({…})` and `json!([…])`
abbrev pub obj : List (Text × Value) → Value
obj members = object (fields_of_list members)

abbrev pub arr : List Value → Value
arr items = array (items_of_list items)

unfoldable pub write_response : ℕ → Text → Bool → Option Value → Option Text → DapServer → DapServer
write_response request_seq command success body message s = record s {
  out_seq = s.out_seq + 1;
  out =
      s.out
      ++ response (record {
        seq = s.out_seq;
        request_seq = request_seq;
        success = success;
        command = command;
        body = body;
        message = message;
      })
        ∷ [];
}

unfoldable pub write_event : Text → Option Value → DapServer → DapServer
write_event event body s = record s {
  out_seq = s.out_seq + 1;
  out = s.out ++ notice (record { seq = s.out_seq; event = event; body = body }) ∷ [];
}

-- The body of the event `stopped`.
abbrev pub stopped_body : Text → Value
stopped_body reason = obj (
    (codes "reason", string reason)
    ∷ (codes "threadId", num 1)
    ∷ (codes "allThreadsStopped", bool true)
    ∷ [])

-- The listener that `with_bus` spawns, at one message; `show_nat` prints a number.
unfoldable pub hear : (ℕ → Text) → ExtMessage → DapServer → DapServer
hear show_nat (breakpoint_hit id file line) s = record s {
  state = record s.state { live_paused = true };
  pending_events =
      s.pending_events
      ++ record {
        event = codes "stopped";
        body = some (
            obj (
              (codes "reason", string (codes "breakpoint"))
              ∷ (
                codes "description",
                string (codes "paused at " ++ file ++ codes ":" ++ show_nat line),
              )
              ∷ (codes "threadId", num 1)
              ∷ (codes "allThreadsStopped", bool true)
              ∷ []));
      }
        ∷ [];
}
hear show_nat (hello pid version) s = s
hear show_nat (request_finished id path micros) s = s

-- `with_bus`
unfoldable pub with_bus : LinkBus → DapServer → DapServer
with_bus bus s = record s { bus = some bus }

-- The arm of `run` for a pending event.
unfoldable pub emit_pending : DapServer → DapServer
emit_pending s = elim s.pending_events [
  | [] ↦ s
  | p ∷ rest ↦ write_event p.event p.body (record s { pending_events = rest })
]
