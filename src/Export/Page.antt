-- ===== src/Export/Page.antt =====
-- daemon/src/bin/export.rs: what the exported page holds.
use php_periscope.Common.{
  ℕ, none, some, [], ◌∷◌, ◌++◌, ◌≡◌, ◌⊎◌, refl, ap, arith, true, false, ◌&&◌, nat_beq, Bool-cases,
  Option-cases, inl, inr,
}
use php_periscope.Common.Text.{Text, codes}
use php_periscope.Filter.{starts_with, contains_text}
use php_periscope.Api.Disk.{slash}
use php_periscope.Export.Assets.{split_at_text}
use php_periscope.Export.Main.{escape, snippet_of, inject}

abbrev closing : Text
closing = codes "</"

escape-head :
    (c : ℕ) (s : Text) → nat_beq c slash ≡ false → starts_with (slash ∷ []) (escape (c ∷ s)) ≡ false
unfolding escape starts_with
escape-head c [] h = ground (arith, h)
escape-head c (d ∷ s) h = ground (arith, h)

-- The escaped text closes no element.
escape-closes_nothing : (s : Text) → contains_text (escape s) closing ≡ false
unfolding escape contains_text starts_with
escape-closes_nothing [] = refl
escape-closes_nothing (c ∷ []) = ground arith
escape-closes_nothing (c ∷ d ∷ s) = elim (Bool-cases (nat_beq c b'<' && nat_beq d slash)) [
  | inl closes ↦ rw (escape, closes) (escape-closes_nothing s)
  | inr stays ↦
      rw (escape, stays) (ground (arith, escape-closes_nothing (d ∷ s), escape-head d s, stays))
]

starts_with-append :
    (needle s t : Text) → starts_with needle s ≡ true → starts_with needle (s ++ t) ≡ true
unfolding starts_with
starts_with-append [] s t h = refl
starts_with-append (c ∷ needle) [] t h = absurd (cc h)
starts_with-append (c ∷ needle) (d ∷ s) t h = ground (arith, h, starts_with-append needle s t)

-- What the search finds: the text is put together from its parts, the second begins with what is
-- searched for, and the first does not hold it.
record Found (needle s before after : Text) : Type 0 where
  whole : before ++ after ≡ s
  begins : starts_with needle after ≡ true
  nowhere : contains_text before needle ≡ false

module _ (n : ℕ) (ns : Text) where
  abbrev needle : Text
  needle = n ∷ ns

  later-Found :
      (c : ℕ) (s before after : Text)
      → starts_with needle (c ∷ s) ≡ false
      → Found needle s before after
      → Found needle (c ∷ s) (c ∷ before) after
  unfolding contains_text
  later-Found c s before after missing f =
      let whole = ap (λ t. c ∷ t) f.whole in
      record {
        whole = whole;
        begins = f.begins;
        nowhere = elim (Bool-cases (starts_with needle (c ∷ before))) [
          | inr fine ↦ rw (contains_text, fine) f.nowhere
          | inl bad ↦
              let there = starts_with-append needle (c ∷ before) after bad in
              absurd (cc (missing, ap (starts_with needle) whole, there))
        ];
      }

  split_at_text-Found :
      (s before after : Text)
      → split_at_text needle s ≡ some (before, after)
      → Found needle s before after
  unfolding split_at_text starts_with contains_text
  split_at_text-Found [] before after e = absurd (cc e)
  split_at_text-Found (c ∷ s) before after e = elim (Bool-cases (starts_with needle (c ∷ s))) [
    | inl here ↦
        let parts = rw (split_at_text, here) at e in
        let first : [] ≡ before = cc parts in
        let second : c ∷ s ≡ after = cc parts in
        rw (← first, ← second) (record { whole = refl; begins = here; nowhere = refl })
    | inr missing ↦ elim (Option-cases (split_at_text needle s)) [
      | inl gone ↦ absurd (cc (rw (split_at_text, missing, gone) at e))
      | inr ((b, a), found) ↦
          let parts = rw (split_at_text, missing, found) at e in
          let first : c ∷ b ≡ before = cc parts in
          let second : a ≡ after = cc parts in
          rw (← first, ← second) (later-Found c s b a missing (split_at_text-Found s b a found))
    ]
  ]

  split_at_text-none : (s : Text) → split_at_text needle s ≡ none → contains_text s needle ≡ false
  unfolding split_at_text contains_text starts_with
  split_at_text-none [] e = refl
  split_at_text-none (c ∷ s) e = elim (Bool-cases (starts_with needle (c ∷ s))) [
    | inl here ↦ absurd (cc (rw (split_at_text, here) at e))
    | inr missing ↦ elim (Option-cases (split_at_text needle s)) [
      | inl gone ↦ rw (contains_text, missing) (split_at_text-none s gone)
      | inr (p, found) ↦ absurd (cc (rw (split_at_text, missing, found) at e))
    ]
  ]

abbrev pub head_end : Text
head_end = codes "</head>"

-- The exported page is the inlined page with one script put in: before the first end of a head, or
-- at the start of a page that has none. In the trace's text between the tags of that script nothing
-- closes an element, whatever the trace holds.
pub inject_lem :
    (blob inlined : Text)
    → (before : Text) × (after : Text) × (inject (snippet_of blob) inlined
        ≡ before
          ++ (codes "<script>window.PERISCOPE_TRACE=" ++ escape blob ++ codes ";</script>")
          ++ after)
      × (before ++ after ≡ inlined)
      × (contains_text before head_end ≡ false)
      × ((starts_with head_end after ≡ true)
          ⊎ ((before ≡ []) × (contains_text inlined head_end ≡ false)))
      × (contains_text (escape blob) closing ≡ false)
unfolding inject snippet_of contains_text starts_with
inject_lem blob inlined = elim (Option-cases (split_at_text head_end inlined)) [
  | inl gone ↦
      let nothing = split_at_text-none b'<' (codes "/head>") inlined gone in
      (
        [],
        inlined,
        rw (inject, gone) refl,
        refl,
        refl,
        inr (refl, nothing),
        escape-closes_nothing blob,
      )
  | inr ((before, after), found) ↦
      let f = split_at_text-Found b'<' (codes "/head>") inlined before after found in
      (
        before,
        after,
        rw (inject, found) refl,
        f.whole,
        f.nowhere,
        inl f.begins,
        escape-closes_nothing blob,
      )
]
