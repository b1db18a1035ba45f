-- ===== src/Dump/Preview.antt =====
-- daemon/src/bin/dump.rs: the preview of a payload, cut at a byte.
use php_periscope.Common.{
  ℕ, ◌+◌, ◌-◌, ◌<◌, ◌≤◌, Option, none, ltb_iff, ◌≢◌, [], ◌∷◌, ◌++◌, ◌≡◌, refl, arith, leb, nat_beq,
  false,
}
use php_periscope.Common.Text.{Text, utf8_width, byte_len, slice_to}
use php_periscope.Common.Results.{ok}
use php_periscope.Json.{Value, null, bool, number, string, array, object}
use php_periscope.Decode.Raw.{RawEvent, JsonText}
use php_periscope.Dump.Report.{CallSiteJson}
use php_periscope.Dump.Decode.{dump_payload, dump_call_site}
use php_periscope.Dump.Print.{panicked, shorten, payload_preview, print_event}

pub utf8_width-le : (c : ℕ) → 1 ≤ utf8_width c
utf8_width-le c = ground arith

leb-false : (a b : ℕ) → b < a → leb a b ≡ false
leb-false a b h = ground arith

-- No slice ends inside a character.
pub slice_to_inside :
    (n : ℕ) (head : Text) (c : ℕ) (rest : Text)
    → byte_len head < n
    → n < byte_len head + utf8_width c
    → slice_to n (head ++ c ∷ rest) ≡ none
unfolding slice_to
slice_to_inside n [] c rest low high =
    let positive : nat_beq n 0 ≡ false = ground arith in
    let wide : leb (utf8_width c) n ≡ false = leb-false (utf8_width c) n (omega arith) in
    rw (positive, wide) refl
slice_to_inside n (d ∷ head) c rest low high =
    let positive : nat_beq n 0 ≡ false = ground (arith, utf8_width-le d) in
    let ih = slice_to_inside (n - utf8_width d) head c rest (omega arith) (omega arith) in
    rw (positive, ih) (ground arith)

abbrev pub cut : ℕ
cut = 117

module _ (json : JsonText) (show_nat : ℕ → Text) where
  shorten_inside :
      (head : Text) (c : ℕ) (rest : Text)
      → byte_len head < cut
      → cut < byte_len head + utf8_width c
      → 120 < byte_len (head ++ c ∷ rest)
      → shorten json show_nat (head ++ c ∷ rest) ≡ none
  unfolding shorten
  shorten_inside head c rest low high long =
      rw
        (
          (ltb_iff 120 (byte_len (head ++ c ∷ rest))).1 long,
          slice_to_inside cut head c rest low high,
        )
        refl

  payload_preview-shorten :
      (v : Value)
      → v ≢ null
      → payload_preview json show_nat v ≡ shorten json show_nat (json.print v)
  unfolding payload_preview
  payload_preview-shorten null shown = absurd (shown refl)
  payload_preview-shorten (bool b) shown = refl
  payload_preview-shorten (number n) shown = refl
  payload_preview-shorten (string t) shown = refl
  payload_preview-shorten (array vs) shown = refl
  payload_preview-shorten (object fs) shown = refl

  -- The text dump panics at an event whose payload and call site decode, whose payload is not null
  -- and whose printed payload has more than 120 bytes with a character that starts before byte 117
  -- and ends after it: nothing of the event is printed, and the output ends with the panic.
  pub print_event_panics :
      (e : RawEvent) (tag : Text) (v : Value) (site : Option CallSiteJson) (head : Text) (c : ℕ)
      (rest : Text)
      → dump_payload json e.payload ≡ ok (tag, v)
      → v ≢ null
      → dump_call_site json e.payload ≡ ok site
      → json.print v ≡ head ++ c ∷ rest
      → byte_len head < cut
      → cut < byte_len head + utf8_width c
      → 120 < byte_len (head ++ c ∷ rest)
      → print_event json show_nat e ≡ record { lines = []; end = panicked }
  unfolding print_event
  print_event_panics e tag v site head c rest decoded shown placed printed low high long =
      rw
        (
          print_event,
          decoded,
          placed,
          payload_preview-shorten v shown,
          printed,
          shorten_inside head c rest low high long,
        )
        refl
