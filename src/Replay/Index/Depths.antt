-- ===== src/Replay/Index/Depths.antt =====
-- daemon/src/replay/index.rs: the depth of the frame of `TraceIndex::frame_at` among all chains of
-- frames whose windows hold the time.
use php_periscope.Common.{
  ℕ, suc, ◌≤◌, ◌<◌, Option, none, some, List, [], ◌∷◌, ◌≡◌, arith, length, count, All, nat_beq,
  Bool-cases, inl, inr, ◌⊎◌, subst,
}
use native.Mathlib.Decide.{dec_lt}
use php_periscope.Trace.{TraceJson}
use php_periscope.Replay.Index.{TraceIndex, build, children_of, frame_at}
use php_periscope.Replay.Index.Windows.{
  Shows, Hides, First, here, later, Reached, Landing, count-First, frame_at-Landing,
}

module _ (index : TraceIndex) (time : ℕ) where
  -- A chain of frames from a root down, of any roots and children, whose windows all hold the time:
  -- how many frames it has, and the last of them.
  pub data Covers : ℕ → ℕ → Type 0 where
    root : (id : ℕ) → 1 ≤ count id index.roots → Shows index time id → Covers 1 id
    call :
        (n p id : ℕ)
        → Covers n p
        → 1 ≤ count id (children_of index p)
        → Shows index time id
        → Covers (suc n) id

  -- Two of the frames have windows that both hold the time.
  abbrev pub Clash : List ℕ → Type 0
  Clash ids =
      (x : ℕ) × (y : ℕ) × (1 ≤ count x ids)
      × (1 ≤ count y ids)
      × Shows index time x
      × Shows index time y
      × (x ≡ y → ⊥)

  -- So it is for two roots or two children of one frame.
  pub data Overlap : Type 0 where
    of_roots : Clash index.roots → Overlap
    of_children : (p : ℕ) → Clash (children_of index p) → Overlap

  -- The frame ends a chain, and no chain is longer unless the windows of siblings overlap; nothing
  -- is returned only when there is no chain.
  abbrev pub Deepest : Option ℕ → Type 0
  Deepest none = (n id : ℕ) → Covers n id → ⊥
  Deepest (some id) = (m : ℕ) × Covers m id × ((n other : ℕ) → Covers n other → (n ≤ m) ⊎ Overlap)

  not-Hides :
      (x : ℕ) (ids : List ℕ) → All (Hides index time) ids → 1 ≤ count x ids → Shows index time x → ⊥
  not-Hides x [] h c shown = absurd (omega arith)
  not-Hides x (y ∷ ids) (hides, h) c (f, known, inside) = elim (Bool-cases (nat_beq y x)) [
    | inl same ↦ let e : y ≡ x = ground arith in absurd (cc (hides f (rw e known), inside))
    | inr other ↦ not-Hides x ids h (ground arith) (f, known, inside)
  ]

  Shows-First : {ids : List ℕ} {id : ℕ} → First index time ids id → Shows index time id
  Shows-First (here id ids shown) = shown
  Shows-First (later x id ids _ rest) = Shows-First rest

  Covers-Reached : (id : ℕ) → Reached index time id → (n : ℕ) × Covers n id
  Covers-Reached id (Reached.top _ first) =
      (1, root id (count-First index time first) (Shows-First first))
  Covers-Reached id (Reached.under p _ r first) =
      let (n, covered) = Covers-Reached p r in
      (suc n, call n p id covered (count-First index time first) (Shows-First first))

  Covers-positive : {n id : ℕ} → Covers n id → 1 ≤ n
  Covers-positive (root _ _ _) = omega arith
  Covers-positive (call _ _ _ _ _ _) = omega arith

  meet :
      (ids : List ℕ) (a b : ℕ)
      → 1 ≤ count a ids
      → 1 ≤ count b ids
      → Shows index time a
      → Shows index time b
      → (a ≡ b) ⊎ Clash ids
  meet ids a b h k s t = elim (Bool-cases (nat_beq a b)) [
    | inl same ↦ inl (ground arith)
    | inr other ↦ inr (a, b, h, k, s, t, λ e. ground arith)
  ]

  -- Two chains of one length end in one frame, or part at two siblings.
  Covers-same : {n m a b : ℕ} → Covers n a → Covers m b → n ≡ m → (a ≡ b) ⊎ Overlap
  Covers-same (root a h s) (root b k t) e = elim (meet index.roots a b h k s t) [
    | inl same ↦ inl same
    | inr clash ↦ inr (of_roots clash)
  ]
  Covers-same (root _ _ _) (call n _ _ c _ _) e = absurd (omega (arith, Covers-positive c))
  Covers-same (call n _ _ c _ _) (root _ _ _) e = absurd (omega (arith, Covers-positive c))
  Covers-same (call n p a c h s) (call m q b d k t) e = elim (Covers-same c d (omega arith)) [
    | inr clash ↦ inr clash
    | inl same ↦
        let kid = subst (λ x. 1 ≤ count a (children_of index x)) same h in
        elim (meet (children_of index q) a b kid k s t) [
          | inl one ↦ inl one
          | inr clash ↦ inr (of_children q clash)
        ]
  ]

  -- Below the end of a chain, a longer chain goes on, unless they part at two siblings.
  Covers-below :
      {n m a b : ℕ}
      → Covers n a
      → Covers m b
      → m < n
      → ((x : ℕ) × (1 ≤ count x (children_of index b)) × Shows index time x) ⊎ Overlap
  Covers-below (root _ _ _) d lt = absurd (omega (arith, Covers-positive d))
  Covers-below {m = m} {b = b} (call k p a c h s) d lt = elim (dec_lt m k) [
    | yes deeper ↦ Covers-below c d deeper
    | no level ↦ elim (Covers-same c d (omega arith)) [
      | inr clash ↦ inr clash
      | inl same ↦ inl (a, subst (λ x. 1 ≤ count a (children_of index x)) same h, s)
    ]
  ]

  -- A root under which a chain starts.
  Covers-top : {n a : ℕ} → Covers n a → (x : ℕ) × (1 ≤ count x index.roots) × Shows index time x
  Covers-top (root a h s) = (a, h, s)
  Covers-top (call _ _ _ c _ _) = Covers-top c

  Covers-bound :
      {n m a b : ℕ}
      → Covers n a
      → Covers m b
      → All (Hides index time) (children_of index b)
      → (n ≤ m) ⊎ Overlap
  Covers-bound {n = n} {m = m} {b = b} c d hidden = elim (dec_lt m n) [
    | no short ↦ inl (omega arith)
    | yes long ↦ elim (Covers-below c d long) [
      | inr clash ↦ inr clash
      | inl (x, held, shown) ↦ absurd (not-Hides x (children_of index b) hidden held shown)
    ]
  ]

  Landing-Deepest : (r : Option ℕ) → Landing index time r → Deepest r
  Landing-Deepest none hidden =
      λ n id c. let (x, held, shown) = Covers-top c in not-Hides x index.roots hidden held shown
  Landing-Deepest (some id) (reached, hidden) =
      let (m, covered) = Covers-Reached id reached in
      (m, covered, λ n other c. Covers-bound c covered hidden)

-- On an index that `build` made, the `loop` of `frame_at` ends within one round more than the
-- preorder is long. When it returns a frame, the frame is the end of a chain that starts with the
-- first root, in the order of the roots, whose window holds the time, and goes on with the first
-- child, in the order of the calls, whose window does, and no child of the frame has such a window.
-- No chain of roots and children whose windows all hold the time is longer than the one to the
-- frame, unless the windows of two roots or of two children of one frame both hold the time. When
-- it returns nothing, the window of no root holds the time, and there is no such chain.
pub frame_at_lem :
    (fuel : ℕ) (t : TraceJson) (index : TraceIndex) (time rounds : ℕ)
    → build fuel t ≡ some index
    → length index.preorder < rounds
    → (r : Option ℕ) × (frame_at index rounds time ≡ some r)
      × Landing index time r
      × Deepest index time r
frame_at_lem fuel t index time rounds h enough =
    let (r, ends, landing) = frame_at-Landing fuel t index time rounds h enough in
    (r, ends, landing, Landing-Deepest index time r landing)
