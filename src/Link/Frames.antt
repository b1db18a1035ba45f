-- ===== src/Link/Frames.antt =====
-- daemon/src/ext_link.rs: `read_frame` and `read_loop` against the frames on the wire.
use php_periscope.Common.{
  ℕ, ◌/◌, ◌%◌, ◌^◌, ◌≤◌, ◌<◌, Option, none, some, List, [], ◌∷◌, ◌++◌, ◌≡◌, refl, ◌∙◌, ap, arith,
  length, take, drop, length-append,
}
use php_periscope.Common.Text.{codes}
use php_periscope.Common.Results.{Result, ok, err}
use php_periscope.Link.{
  ExtMessage, Codec, max_frame, to_be_bytes, from_be_bytes, read_exact, read_body, read_frame,
}

pub from_be_bytes-to_be_bytes :
    (n : ℕ)
    → n < 4294967296
    → from_be_bytes (n / 2 ^ 24 % 256) (n / 2 ^ 16 % 256) (n / 2 ^ 8 % 256) (n % 256) ≡ n
unfolding from_be_bytes
from_be_bytes-to_be_bytes n h = omega arith

-- A body with its length in front of it.
unfoldable pub framed : List ℕ → List ℕ
framed body = to_be_bytes (length body) ++ body

take-append : (xs ys : List ℕ) → take (length xs) (xs ++ ys) ≡ xs
take-append [] ys = refl
take-append (x ∷ xs) ys = ap (λ l. x ∷ l) (take-append xs ys)

drop-append : (xs ys : List ℕ) → drop (length xs) (xs ++ ys) ≡ ys
drop-append [] ys = refl
drop-append (x ∷ xs) ys = drop-append xs ys

pub read_exact-append : (xs ys : List ℕ) → read_exact (length xs) (xs ++ ys) ≡ some (xs, ys)
unfolding read_exact
read_exact-append xs ys = ground (arith, length-append xs ys, take-append xs ys, drop-append xs ys)

-- What `read_frame` makes of the body of a frame of an admitted length.
module _ (codec : Codec) where
  unfoldable pub decoded : List ℕ → List ℕ → Result (Option (ExtMessage × List ℕ))
  decoded body rest = elim (codec.decode body) [
    | none ↦ err (codes "decoding ext frame")
    | some msg ↦ ok (some (msg, rest))
  ]

  read_body_lem :
      (body rest : List ℕ)
      → 1 ≤ length body
      → length body ≤ max_frame
      → read_body codec (length body) (body ++ rest) ≡ decoded body rest
  unfolding read_body decoded
  read_body_lem body rest low high = ground (arith, read_exact-append body rest)

  -- A frame with a body of 1 byte to 1 MiB is read whole: `read_frame` decodes exactly the body,
  -- refuses the frame when it does not decode, and leaves the stream at the byte after it.
  pub read_frame_lem :
      (body rest : List ℕ)
      → 1 ≤ length body
      → length body ≤ max_frame
      → read_frame codec (framed body ++ rest) ≡ decoded body rest
  unfolding read_frame framed to_be_bytes
  read_frame_lem body rest low high =
      ap (λ n. read_body codec n (body ++ rest))
        (from_be_bytes-to_be_bytes (length body) (omega (arith, high)))
      ∙ read_body_lem body rest low high
