-- ===== src/Link/Loop.antt =====
-- daemon/src/ext_link.rs: `read_loop` over a whole stream.
use php_periscope.Common.{
  ℕ, zero, suc, ◌≤◌, ◌<◌, Option, none, some, List, [], ◌∷◌, ◌++◌, ◌≡◌, refl, sym, ◌∙◌, ap, arith,
  length, drop, All, inl, inr, ◌⊎◌,
}
use mathlib.Core.List.{append_assoc, append-nil}
use php_periscope.Common.Text.{Text}
use php_periscope.Common.Results.{Result, ok, err}
use php_periscope.Link.{
  ExtMessage, LinkBus, Codec, max_frame, read_exact, read_body, read_frame, read_loop,
  from_be_bytes,
}
use php_periscope.Link.Frames.{framed, decoded, read_frame_lem}

-- The frames of the messages, and what follows them.
unfoldable pub wire : (ExtMessage → List ℕ) → List ExtMessage → List ℕ → List ℕ
wire encode [] tail = tail
wire encode (msg ∷ msgs) tail = framed (encode msg) ++ wire encode msgs tail

-- The body of the message is of an admitted length and decodes to it.
abbrev pub Fits : Codec → (ExtMessage → List ℕ) → ExtMessage → Type 0
Fits codec encode msg =
    (1 ≤ length (encode msg))
    × (length (encode msg) ≤ max_frame)
    × (codec.decode (encode msg) ≡ some msg)

-- Nothing whole is left of the stream, or its next frame is refused.
abbrev pub Ends : Codec → List ℕ → Type 0
Ends codec tail = (read_frame codec tail ≡ ok none) ⊎ ((e : Text) × (read_frame codec tail ≡ err e))

frame_cases :
    (r : Result (Option (ExtMessage × List ℕ)))
    → ((e : Text) × (r ≡ err e))
      ⊎ ((r ≡ ok none) ⊎ ((got : ExtMessage × List ℕ) × (r ≡ ok (some got))))
frame_cases (err e) = inl (e, refl)
frame_cases (ok none) = inr (inl refl)
frame_cases (ok (some got)) = inr (inr (got, refl))

length-drop : (n : ℕ) (xs : List ℕ) → length (drop n xs) ≤ length xs
length-drop zero xs = omega arith
length-drop (suc n) [] = omega arith
length-drop (suc n) (x ∷ xs) = omega (arith, length-drop n xs)

abbrev pub with_sent : LinkBus → List ExtMessage → LinkBus
with_sent bus msgs = record bus { sent = msgs }

module _ (codec : Codec) where
  -- From a stream that holds the frames of some messages, each with a body of 1 byte to 1 MiB
  -- that decodes to its message, and then something that `read_frame` ends at or refuses,
  -- `read_loop` broadcasts exactly these messages in their order and changes nothing else of the
  -- bus; one round more than the number of messages is fuel enough.
  pub read_loop_lem :
      (encode : ExtMessage → List ℕ) (msgs : List ExtMessage) (tail : List ℕ) (fuel : ℕ)
      (bus : LinkBus)
      → length msgs < fuel
      → All (Fits codec encode) msgs
      → Ends codec tail
      → read_loop codec fuel (wire encode msgs tail) bus ≡ some (with_sent bus (bus.sent ++ msgs))
  unfolding wire read_loop decoded
  read_loop_lem encode msgs tail zero bus lt fits ends = absurd (omega arith)
  read_loop_lem encode [] tail (suc fuel) bus lt fits (inl stop) =
      rw (read_loop, stop) (ap (λ l. some (with_sent bus l)) (sym (append-nil bus.sent)))
  read_loop_lem encode [] tail (suc fuel) bus lt fits (inr (e, stop)) =
      rw (read_loop, stop) (ap (λ l. some (with_sent bus l)) (sym (append-nil bus.sent)))
  read_loop_lem encode (msg ∷ msgs) tail (suc fuel) bus lt ((low, high, decodes), fits) ends =
      rw
        (
          read_loop,
          read_frame_lem codec (encode msg) (wire encode msgs tail) low high,
          decoded,
          decodes,
        )
        (read_loop_lem encode msgs tail fuel (with_sent bus (bus.sent ++ msg ∷ [])) (omega arith)
            fits ends
          ∙ ap (λ l. some (with_sent bus l)) (append_assoc bus.sent (msg ∷ []) msgs))

  -- What `read_frame` leaves of the stream is shorter.
  read_body-shorter :
      (len : ℕ) (stream : List ℕ) (got : ExtMessage × List ℕ)
      → read_body codec len stream ≡ ok (some got)
      → length got.1 ≤ length stream
  unfolding read_body read_exact
  read_body-shorter len stream got h = ground (arith, length-drop len stream)

  read_frame-shorter :
      (stream : List ℕ) (got : ExtMessage × List ℕ)
      → read_frame codec stream ≡ ok (some got)
      → length got.1 < length stream
  unfolding read_frame
  read_frame-shorter (a ∷ b ∷ c ∷ d ∷ stream) got h =
      omega (arith, read_body-shorter (from_be_bytes a b c d) stream got h)
  read_frame-shorter [] got h = absurd (cc h)
  read_frame-shorter (a ∷ []) got h = absurd (cc h)
  read_frame-shorter (a ∷ b ∷ []) got h = absurd (cc h)
  read_frame-shorter (a ∷ b ∷ c ∷ []) got h = absurd (cc h)

  -- `read_loop` ends on every stream: a round for every byte, and one more, is fuel enough.
  pub read_loop_ends :
      (fuel : ℕ) (stream : List ℕ) (bus : LinkBus)
      → length stream < fuel
      → (bus' : LinkBus) × (read_loop codec fuel stream bus ≡ some bus')
  unfolding read_loop
  read_loop_ends zero stream bus lt = absurd (omega arith)
  read_loop_ends (suc fuel) stream bus lt = elim (frame_cases (read_frame codec stream)) [
    | inl (e, refused) ↦ (bus, rw (read_loop, refused) refl)
    | inr (inl stop) ↦ (bus, rw (read_loop, stop) refl)
    | inr (inr (got, read)) ↦
        let next = with_sent bus (bus.sent ++ got.0 ∷ []) in
        let (bus', ends) =
          read_loop_ends fuel got.1 next (omega (arith, read_frame-shorter stream got read)) in
        (bus', rw (read_loop, read) ends)
  ]
