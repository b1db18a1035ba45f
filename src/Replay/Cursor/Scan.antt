-- ===== src/Replay/Cursor/Scan.antt =====
-- The loops of the cursor: they stop at the first frame that passes their test.
use php_periscope.Common.{
  ℕ, zero, suc, ◌+◌, ◌-◌, ◌≤◌, ◌<◌, some, List, [], ◌∷◌, Bool, true, false, ◌≡◌, arith, sym, ◌∙◌,
  ap, nat_beq, length, get_elem?, drop, Bool-cases, Option-cases, inl, inr, get_elem?-drop,
  lt-length_of_get_elem?,
}
use php_periscope.Trace.{FrameJson}
use php_periscope.Replay.Index.{TraceIndex, frame}
use php_periscope.Replay.Cursor.{ReplayCursor, advance, scan}

module _ (index : TraceIndex) (stop : FrameJson → Bool) where
  -- A known frame at the position passes the test.
  abbrev pub Stops : ℕ → Type 0
  Stops i =
      (id : ℕ) × (f : FrameJson) × (get_elem? index.preorder i ≡ some id)
      × (frame index id ≡ some f)
      × (stop f ≡ true)

  -- No known frame at the position passes the test.
  abbrev pub Passes : ℕ → Type 0
  Passes i =
      (id : ℕ) (f : FrameJson)
      → get_elem? index.preorder i ≡ some id
      → frame index id ≡ some f
      → stop f ≡ false

  -- The list holds the ids of the preorder from the position on.
  abbrev Suffix : ℕ → List ℕ → Type 0
  Suffix next rest = (j : ℕ) → get_elem? rest j ≡ get_elem? index.preorder (next + j)

  Suffix-tail : (next id : ℕ) (rest : List ℕ) → Suffix next (id ∷ rest) → Suffix (suc next) rest
  Suffix-tail next id rest h j = h (suc j) ∙ ap (get_elem? index.preorder) (omega arith)

  Suffix-head :
      (next id : ℕ) (rest : List ℕ)
      → Suffix next (id ∷ rest)
      → get_elem? index.preorder next ≡ some id
  Suffix-head next id rest h = ap (get_elem? index.preorder) (omega arith) ∙ sym (h 0)

  advance_bounds :
      (next : ℕ) (rest : List ℕ)
      → (next ≤ advance index stop next rest) × (advance index stop next rest ≤ next + length rest)
  unfolding advance
  advance_bounds next [] = omega arith
  advance_bounds next (id ∷ rest) = ground (arith, advance_bounds (suc next) rest)

  advance-Stops :
      (next : ℕ) (rest : List ℕ)
      → Suffix next rest
      → advance index stop next rest < next + length rest
      → Stops (advance index stop next rest)
  unfolding advance
  advance-Stops next [] h lt = absurd (omega arith)
  advance-Stops next (id ∷ rest) h lt =
      let head = Suffix-head next id rest h in
      let tail = advance-Stops (suc next) rest (Suffix-tail next id rest h) in
      elim (Option-cases (frame index id)) [
        | inl unknown ↦ rw (unknown, advance) (tail (ground arith))
        | inr (f, known) ↦ elim (Bool-cases (stop f)) [
          | inl hit ↦ rw (known, advance) (rw hit (id, f, head, known, hit))
          | inr miss ↦ rw (known, advance) (rw miss (tail (ground arith)))
        ]
      ]

  advance-Passes :
      (next i : ℕ) (rest : List ℕ)
      → Suffix next rest
      → next ≤ i
      → i < advance index stop next rest
      → Passes i
  unfolding advance
  advance-Passes next i [] h le lt = absurd (omega arith)
  advance-Passes next i (id ∷ rest) h le lt = elim (Bool-cases (nat_beq next i)) [
    | inl same ↦ λ id' f at_i known.
        let e : next ≡ i = ground arith in
        let ids : some id ≡ some id' =
          sym (Suffix-head next id rest h) ∙ ap (get_elem? index.preorder) e ∙ at_i in
        ground arith
    | inr later ↦
        advance-Passes (suc next) i rest (Suffix-tail next id rest h) (ground arith) (ground arith)
  ]

length-drop-le {ℓ} : {A : Type ℓ} (k : ℕ) (xs : List A) → length (drop k xs) ≡ length xs - k
length-drop-le zero xs = omega arith
length-drop-le (suc k) [] = omega arith
length-drop-le (suc k) (x ∷ xs) = omega (arith, length-drop-le k xs)

-- What `scan` returns: the first later position whose frame passes the test, if it is a position
-- of the preorder, and else all later frames fail it.
pub scan_lem :
    (c : ReplayCursor) (stop : FrameJson → Bool)
    → (c.pos < scan c stop)
      × (scan c stop < length c.index.preorder → Stops c.index stop (scan c stop))
      × ((i : ℕ) → c.pos < i → i < scan c stop → Passes c.index stop i)
      × (length c.index.preorder ≤ scan c stop → (i : ℕ) → c.pos < i → Passes c.index stop i)
scan_lem c stop =
    let pre = c.index.preorder in
    let suffix = λ (j : ℕ). get_elem?-drop (c.pos + 1) j pre in
    let bounds = advance_bounds c.index stop (c.pos + 1) (drop (c.pos + 1) pre) in
    let size = length-drop-le (c.pos + 1) pre in
    let passes = λ (i : ℕ) (le : c.pos < i) (lt : i < scan c stop).
      advance-Passes c.index stop (c.pos + 1) i (drop (c.pos + 1) pre) suffix (omega arith) lt in
    (
      omega arith,
      λ lt. advance-Stops c.index stop (c.pos + 1) (drop (c.pos + 1) pre) suffix (omega arith),
      passes,
      λ ge i le id f at_i known.
          passes i le (omega (arith, lt-length_of_get_elem? pre i at_i)) id f at_i known,
    )
