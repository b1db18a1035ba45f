-- ===== src/Link/Tests.antt =====
-- daemon/src/ext_link.rs: the theorems at a small codec, in which a body is one byte, the line of
-- a breakpoint that is hit.
use php_periscope.Common.{ℕ, ◌≡◌, refl, arith, Option, none, some, List, [], ◌∷◌, inl, true, false}
use php_periscope.Link.{
  ExtMessage, breakpoint_hit, hello, request_finished, continue, Codec, LinkBus, new_bus,
  read_frame, read_loop, broadcast_to_extensions, extension_count, to_be_bytes,
}
use php_periscope.Link.Frames.{framed}
use php_periscope.Link.Loop.{wire, read_loop_lem, read_loop_ends, with_sent}
use php_periscope.Link.Bus.{broadcast_to_extensions_lem}

abbrev hit : ℕ → ExtMessage
hit line = breakpoint_hit 7 [] line

abbrev decode_hit : List ℕ → Option ExtMessage
decode_hit (line ∷ []) = some (hit line)
decode_hit _ = none

abbrev encode_hit : ExtMessage → List ℕ
encode_hit (breakpoint_hit id file line) = line ∷ []
encode_hit (hello pid version) = []
encode_hit (request_finished id trace micros) = []

abbrev lines : Codec
lines = record { decode = decode_hit; encode = λ msg. [] }

read_loop_lem_example :
    read_loop lines 3 (0 ∷ 0 ∷ 0 ∷ 1 ∷ 42 ∷ 0 ∷ 0 ∷ 0 ∷ 1 ∷ 43 ∷ 0 ∷ 0 ∷ []) new_bus
    ≡ some (with_sent new_bus (hit 42 ∷ hit 43 ∷ []))
unfolding wire framed to_be_bytes read_frame new_bus
read_loop_lem_example =
    read_loop_lem lines encode_hit (hit 42 ∷ hit 43 ∷ []) (0 ∷ 0 ∷ []) 3 new_bus (omega arith)
      ((omega arith, omega arith, refl), ((omega arith, omega arith, refl), tt)) (inl refl)

read_loop_ends_example :
    (bus : LinkBus) × (read_loop lines 7 (0 ∷ 0 ∷ 0 ∷ 1 ∷ 42 ∷ 0 ∷ []) new_bus ≡ some bus)
read_loop_ends_example = read_loop_ends lines 7 (0 ∷ 0 ∷ 0 ∷ 1 ∷ 42 ∷ 0 ∷ []) new_bus (omega arith)

abbrev two : LinkBus
two = record {
  outbound =
      record { queue = []; is_closed = true }
      ∷ record { queue = continue ∷ []; is_closed = false }
      ∷ [];
  sent = [];
  ui_sent = [];
}

broadcast_to_extensions_lem_example :
    extension_count (broadcast_to_extensions continue two) ≡ extension_count two
broadcast_to_extensions_lem_example =
    (broadcast_to_extensions_lem continue two (omega arith, (omega arith, tt))).1
