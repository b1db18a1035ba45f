-- ===== src/Dap/Wire.antt =====
-- daemon/src/dap.rs: the bytes of the messages, and the loop of `run`. A stream is the list of the
-- bytes that are still to be read.
use php_periscope.Common.{
  ℕ, zero, suc, ◌+◌, Option, none, some, List, [], ◌∷◌, ◌++◌, ◌||◌, if◌then◌else◌, nat_beq, ltb,
  length, reverse,
}
use php_periscope.Common.Text.{Text, codes}
use php_periscope.Common.Results.{Result, ok, err, ◌>>=◌}
use php_periscope.Common.Numbers.{show_nat, parse_u64}
use php_periscope.Filter.{TextOps, trim}
use php_periscope.Link.{read_exact}
use php_periscope.Api.Disk.{strip_prefix}
use php_periscope.Dap.Session.{DapMessage, DapServer, Sent, emit_pending}
use php_periscope.Dap.Dispatch.{Env, handle}

abbrev pub max_header_line : ℕ
max_header_line = 8192

-- `read_line`: the line with its line feed, or what stands before the end of the stream, and the
-- rest; `total` bytes of the line are read already.
unfoldable pub read_line : ℕ → List ℕ → Result (List ℕ × List ℕ)
read_line total [] = ok ([], [])
read_line total (byte ∷ stream) =
    let rest = read_line (total + 1) stream in
    if nat_beq byte 0x0a
    then ok (byte ∷ [], stream)
    else if ltb max_header_line (total + 1)
    then err (codes "DAP header line too long")
    else rest >>= λ r. ok (byte ∷ r.0, r.1)

-- `trim_end_matches(['\r', '\n'])`, of the reversed line.
unfoldable pub drop_ends : Text → Text
drop_ends [] = []
drop_ends (c ∷ line) =
    let rest = drop_ends line in if nat_beq c 0x0d || nat_beq c 0x0a then rest else c ∷ line

unfoldable pub trim_ends : Text → Text
trim_ends line = reverse (drop_ends (reverse line))

-- What is taken from other crates and from the standard library: the Unicode tables, the decoding
-- of UTF-8, and serde_json on messages.
pub record Wire : Type 0 where
  pub ops : TextOps
  pub from_utf8_lossy : List ℕ → Text
  pub decode : List ℕ → Option DapMessage
  pub to_vec : Sent → List ℕ

module _ (wire : Wire) where
  -- What one header line makes of the length read so far.
  unfoldable pub read_header : Text → Option ℕ → Result (Option ℕ)
  read_header line content_length = elim (strip_prefix (codes "Content-Length:") line) [
    | none ↦ ok content_length
    | some rest ↦ elim (parse_u64 (trim wire.ops rest)) [
      | none ↦ err (codes "bad Content-Length value")
      | some len ↦ ok (some len)
    ]
  ]

  -- The loop over the header lines: the length and the rest of the stream, `ok none` at its end.
  -- Every line takes bytes, so a round for each byte and one more are enough; `none` is fuel that
  -- ran out.
  unfoldable pub read_headers : ℕ → Option ℕ → List ℕ → Option (Result (Option (Option ℕ × List ℕ)))
  read_headers zero content_length stream = none
  read_headers (suc fuel) content_length stream = elim (read_line 0 stream) [
    | err e ↦ some (err e)
    | ok ([], rest) ↦ some (ok none)
    | ok (byte ∷ bytes, rest) ↦ elim (trim_ends (wire.from_utf8_lossy (byte ∷ bytes))) [
      | [] ↦ some (ok (some (content_length, rest)))
      | c ∷ line ↦ elim (read_header (c ∷ line) content_length) [
        | err e ↦ some (err e)
        | ok next ↦ read_headers fuel next rest
      ]
    ]
  ]

  unfoldable pub read_dap_body : Option ℕ → List ℕ → Result (Option (DapMessage × List ℕ))
  read_dap_body none stream = err (codes "DAP frame missing Content-Length")
  read_dap_body (some len) stream = elim (read_exact len stream) [
    | none ↦ err (codes "unexpected eof")
    | some got ↦ elim (wire.decode got.0) [
      | none ↦ err (codes "parsing DAP body: " ++ wire.from_utf8_lossy got.0)
      | some msg ↦ ok (some (msg, got.1))
    ]
  ]

  -- `read_dap_message`: the message and the rest, `ok none` at the end of the stream.
  unfoldable pub read_dap_message : List ℕ → Option (Result (Option (DapMessage × List ℕ)))
  read_dap_message stream = elim (read_headers (suc (length stream)) none stream) [
    | none ↦ none
    | some (err e) ↦ some (err e)
    | some (ok none) ↦ some (ok none)
    | some (ok (some (content_length, rest))) ↦ some (read_dap_body content_length rest)
  ]

  -- The bytes that `write_response` and `write_event` write for a message.
  unfoldable pub framed : List ℕ → List ℕ
  framed bytes = codes "Content-Length: " ++ show_nat (length bytes) ++ codes "\r\n\r\n" ++ bytes

  unfoldable pub written : List Sent → List ℕ
  written [] = []
  written (s ∷ out) = framed (wire.to_vec s) ++ written out

-- What the `select!` of `run` yields: a message read, or that an event waits. The server holds a
-- sender of its own, so the channel of the events does not close.
pub data Step : Type 0 where
  inbound : Result (Option DapMessage) → Step
  pending : Step

module _ (env : Env) where
  -- The loop of `run`, over what the select yields; `none` is fuel that ran out in a handler.
  unfoldable pub run : ℕ → List Step → DapServer → Option (Result DapServer)
  run fuel [] s = some (ok s)
  run fuel (inbound (ok (some m)) ∷ steps) s = elim (handle env fuel m s) [
    | none ↦ none
    | some (err e) ↦ some (err e)
    | some (ok after) ↦ run fuel steps after
  ]
  run fuel (inbound (ok none) ∷ steps) s = some (ok s)
  run fuel (inbound (err e) ∷ steps) s = some (err e)
  run fuel (pending ∷ steps) s = run fuel steps (emit_pending s)
