-- ===== src/Link.antt =====
-- daemon/src/ext_link.rs: the messages, the bus, and the frames on the socket. A stream is the
-- list of the bytes that are still to be read; a channel of tokio is its queue with its capacity.
pub mod Frames
pub mod Loop
pub mod Bus
mod Tests
use php_periscope.Common.{
  ℕ, zero, suc, ◌+◌, ◌*◌, ◌/◌, ◌%◌, ◌^◌, Option, none, some, List, [], ◌∷◌, ◌++◌, Bool, true, false,
  not, if◌then◌else◌, ltb, leb, nat_beq, length, take, drop, retain, map, map_some, ◌||◌,
  count_where,
}
use php_periscope.Common.Text.{Text, codes}
use php_periscope.Common.Results.{Result, ok, err, ◌>>=◌}

pub data ExtMessage : Type 0 where
  hello : (pid : ℕ) → (version : Text) → ExtMessage
  request_finished : (request_id trace_path : Text) → (duration_micros : ℕ) → ExtMessage
  breakpoint_hit : (frame_id : ℕ) → (file : Text) → (line : ℕ) → ExtMessage

pub data DaemonMessage : Type 0 where
  set_breakpoints : (file : Text) → (lines : List ℕ) → DaemonMessage
  continue : DaemonMessage

pub data UiMessage : Type 0 where
  cursor_set : (trace_id : Text) → (at_micros : ℕ) → (frame_id : Option ℕ) → UiMessage

-- The sending end of an `mpsc` channel for one extension.
pub record Sender : Type 0 where
  pub queue : List DaemonMessage
  pub is_closed : Bool

abbrev pub channel_capacity : ℕ
channel_capacity = 64

-- `tx.try_send(msg)`, the error ignored: a full or closed channel drops the message.
unfoldable pub try_send : DaemonMessage → Sender → Sender
try_send msg tx =
    if tx.is_closed || leb channel_capacity (length tx.queue)
    then tx
    else record tx { queue = tx.queue ++ msg ∷ [] }

-- `LinkBus`: the registered senders, and the messages broadcast on each of the two buses.
pub record LinkBus : Type 0 where
  pub outbound : List Sender
  pub sent : List ExtMessage
  pub ui_sent : List UiMessage

unfoldable pub new_bus : LinkBus
new_bus = record { outbound = []; sent = []; ui_sent = [] }

unfoldable pub register_outbound : LinkBus → LinkBus
register_outbound bus = record bus {
  outbound = bus.outbound ++ record { queue = []; is_closed = false } ∷ [];
}

abbrev pub is_open : Sender → Bool
is_open tx = not tx.is_closed

unfoldable pub broadcast_to_extensions : DaemonMessage → LinkBus → LinkBus
broadcast_to_extensions msg bus = record bus {
  outbound = map (try_send msg) (retain is_open bus.outbound);
}

unfoldable pub extension_count : LinkBus → ℕ
extension_count bus = count_where is_open bus.outbound

abbrev pub max_frame : ℕ
max_frame = 1024 * 1024

-- `u32::to_be_bytes` and `u32::from_be_bytes`
unfoldable pub to_be_bytes : ℕ → List ℕ
to_be_bytes n = n / 2 ^ 24 % 256 ∷ n / 2 ^ 16 % 256 ∷ n / 2 ^ 8 % 256 ∷ n % 256 ∷ []

unfoldable pub from_be_bytes : ℕ → ℕ → ℕ → ℕ → ℕ
from_be_bytes a b c d = a * 2 ^ 24 + b * 2 ^ 16 + c * 2 ^ 8 + d

-- How `read_exact` ends: the bytes and the rest, or the end of the stream before them.
unfoldable pub read_exact : ℕ → List ℕ → Option (List ℕ × List ℕ)
read_exact n stream = if leb n (length stream) then some (take n stream, drop n stream) else none

-- What `serde_json` makes of a body, and of a message.
pub record Codec : Type 0 where
  pub decode : List ℕ → Option ExtMessage
  pub encode : DaemonMessage → List ℕ

module _ (codec : Codec) where
  -- The body of a frame, and what is left of the stream.
  unfoldable pub read_body : ℕ → List ℕ → Result (Option (ExtMessage × List ℕ))
  read_body len stream =
      if nat_beq len 0 || ltb max_frame len
      then err (codes "ext-link frame length out of range")
      else elim (read_exact len stream) [
        | none ↦ err (codes "unexpected eof")
        | some got ↦ elim (codec.decode got.0) [
          | none ↦ err (codes "decoding ext frame")
          | some msg ↦ ok (some (msg, got.1))
        ]
      ]

  -- `read_frame`: `ok none` when the stream ends before a whole length.
  unfoldable pub read_frame : List ℕ → Result (Option (ExtMessage × List ℕ))
  read_frame (a ∷ b ∷ c ∷ d ∷ stream) = read_body (from_be_bytes a b c d) stream
  read_frame _ = ok none

  -- The bytes that `write_frame` writes; `body.len() as u32` keeps the low 32 bits.
  unfoldable pub write_frame : DaemonMessage → List ℕ
  write_frame msg = to_be_bytes (length (codec.encode msg) % 2 ^ 32) ++ codec.encode msg

  -- `read_loop`: every message is broadcast, until the stream ends or a frame is refused. It takes
  -- fuel, `none` when it runs out: each frame takes bytes, so a round for every byte is enough.
  unfoldable pub read_loop : ℕ → List ℕ → LinkBus → Option LinkBus
  read_loop zero stream bus = none
  read_loop (suc fuel) stream bus = elim (read_frame stream) [
    | err e ↦ some bus
    | ok none ↦ some bus
    | ok (some got) ↦ read_loop fuel got.1 (record bus { sent = bus.sent ++ got.0 ∷ [] })
  ]

  -- `write_loop`: the bytes on the socket after the messages that are received, each with whether
  -- writing it succeeds; a write that fails ends the loop.
  unfoldable write_loop : List (DaemonMessage × Bool) → List ℕ
  write_loop [] = []
  write_loop ((msg, succeeds) ∷ outbound) =
      let rest = write_loop outbound in if succeeds then write_frame msg ++ rest else []

  -- `handle_client`, once its tasks are joined: the bus after the loop over what the extension sends,
  -- and the bytes that it is sent.
  unfoldable handle_client :
      ℕ → List ℕ → List (DaemonMessage × Bool) → LinkBus → Option (LinkBus × List ℕ)
  handle_client fuel stream outbound bus =
      map_some (λ after. (after, write_loop outbound))
        (read_loop fuel stream (register_outbound bus))

-- `default_socket_path`
abbrev default_socket_path : Text
default_socket_path = codes "/tmp/periscope/daemon.sock"
