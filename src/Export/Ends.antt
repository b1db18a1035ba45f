-- ===== src/Export/Ends.antt =====
-- daemon/src/bin/export.rs: that `inline_assets` ends, and what it does with a page's text.
use php_periscope.Common.{
  ℕ, zero, suc, ◌≤◌, Option, none, some, [], ◌∷◌, ◌++◌, ◌≡◌, refl, ap, arith, length, drop,
  Bool-cases, Option-cases, inl, inr,
}
use php_periscope.Common.Text.{Text, codes}
use php_periscope.Common.Results.{Result, ok, err, Result-cases}
use php_periscope.Filter.{starts_with}
use php_periscope.Export.Assets.{
  split_at_text, split_at_char, take_tag, Asset, style, script, neither, asset_of, past_script,
  inline_loop, inline_assets,
}

abbrev no_text : Text × Text
no_text = ([], [])

abbrev second_of : Option (Text × Text) → Text
second_of none = []
second_of (some p) = p.1

length-split_at_text :
    (needle s : Text) (p : Text × Text) → split_at_text needle s ≡ some p → length p.1 ≤ length s
unfolding split_at_text
length-split_at_text needle [] p e = elim (Bool-cases (starts_with needle [])) [
  | inl here ↦
      let same : no_text ≡ p = cc (rw (split_at_text, here) at e) in rw (← same) (omega arith)
  | inr missing ↦ absurd (cc (rw (split_at_text, missing) at e))
]
length-split_at_text needle (c ∷ s) p e = elim (Bool-cases (starts_with needle (c ∷ s))) [
  | inl here ↦
      let same : some ([], c ∷ s) ≡ some p = rw (split_at_text, here) at e in
      let second : c ∷ s ≡ p.1 = ap second_of same in rw (← second) (omega arith)
  | inr missing ↦ elim (Option-cases (split_at_text needle s)) [
    | inl gone ↦ absurd (cc (rw (split_at_text, missing, gone) at e))
    | inr (q, found) ↦
        let same : some (c ∷ q.0, q.1) ≡ some p = rw (split_at_text, missing, found) at e in
        let second : q.1 ≡ p.1 = ap second_of same in
        rw (← second) (omega (arith, length-split_at_text needle s q found))
  ]
]

length-take_tag : (c : ℕ) (s : Text) → length (take_tag (c ∷ s)).1 ≤ length s
unfolding take_tag
length-take_tag c [] = ground arith
length-take_tag c (d ∷ s) = ground (arith, length-take_tag d s)

length-drop-le : (n : ℕ) (s : Text) → length (drop n s) ≤ length s
length-drop-le zero s = omega arith
length-drop-le (suc n) [] = omega arith
length-drop-le (suc n) (c ∷ s) = omega (arith, length-drop-le n s)

length-past_script : (s : Text) → length (past_script s) ≤ length s
unfolding past_script
length-past_script s = elim (Option-cases (split_at_text (codes "</script>") s)) [
  | inl gone ↦ rw (past_script, gone) (omega arith)
  | inr (p, found) ↦
      rw (past_script, found)
        (omega (arith, length-drop-le 9 p.1, length-split_at_text (codes "</script>") s p found))
]

length-next : (fuel : ℕ) (after : Text) → length after ≤ suc fuel → length (take_tag after).1 ≤ fuel
unfolding take_tag
length-next fuel [] h = omega arith
length-next fuel (c ∷ s) h = omega (arith, length-take_tag c s)

-- One round, when the rounds after it end.
round_ends :
    (asset : Text → Result Text) (fuel : ℕ) (out rest before after : Text)
    → split_at_char b'<' rest ≡ some (before, after)
    → length (take_tag after).1 ≤ fuel
    → ((out' rest' : Text)
        → length rest' ≤ fuel
        → (r : Result Text) × (inline_loop asset fuel out' rest' ≡ some r))
    → (a : Asset) → asset_of (take_tag after).0 ≡ a
    → (r : Result Text) × (inline_loop asset (suc fuel) out rest ≡ some r)
unfolding inline_loop
round_ends asset fuel out rest before after found le later (style href) e =
    elim (Result-cases (asset href)) [
      | inr (msg, bad) ↦ (err msg, rw (inline_loop, found, e, bad) refl)
      | inl (text, got) ↦
          let (r, run) =
            later (out ++ before ++ codes "<style>" ++ text ++ codes "</style>") (take_tag after).1
              le in
          (r, rw (inline_loop, found, e, got) run)
    ]
round_ends asset fuel out rest before after found le later (script src) e =
    elim (Result-cases (asset src)) [
      | inr (msg, bad) ↦ (err msg, rw (inline_loop, found, e, bad) refl)
      | inl (text, got) ↦
          let (r, run) =
            later (out ++ before ++ codes "<script type=\"module\">" ++ text ++ codes "</script>")
              (past_script (take_tag after).1)
              (omega (arith, le, length-past_script (take_tag after).1)) in
          (r, rw (inline_loop, found, e, got) run)
    ]
round_ends asset fuel out rest before after found le later neither e =
    let (r, run) = later (out ++ before ++ (take_tag after).0) (take_tag after).1 le in
    (r, rw (inline_loop, found, e) run)

-- With as many rounds as the rest has characters, the loop does not run out of them.
inline_loop-ends :
    (asset : Text → Result Text) (fuel : ℕ) (out rest : Text)
    → length rest ≤ fuel
    → (r : Result Text) × (inline_loop asset fuel out rest ≡ some r)
unfolding inline_loop split_at_text starts_with
inline_loop-ends asset zero out [] h = (ok out, refl)
inline_loop-ends asset zero out (c ∷ rest) h = absurd (omega arith)
inline_loop-ends asset (suc fuel) out rest h = elim (Option-cases (split_at_char b'<' rest)) [
  | inl gone ↦ (ok out, rw (inline_loop, gone) refl)
  | inr ((before, after), found) ↦
      let shorter = length-split_at_text (b'<' ∷ []) rest (before, after) found in
      round_ends asset fuel out rest before after found
        (length-next fuel after (omega (arith, shorter)))
        (λ out' rest' le. inline_loop-ends asset fuel out' rest' le) (asset_of (take_tag after).0)
        refl
]

-- Inlining the assets of a page ends, whatever the page is and however its assets are read.
pub inline_assets-ends :
    (asset : Text → Result Text) (html : Text)
    → (r : Result Text) × (inline_assets asset html ≡ some r)
unfolding inline_assets
inline_assets-ends asset html = inline_loop-ends asset (length html) [] html (omega arith)
