-- ===== src/Replay/Index/Windows.antt =====
-- daemon/src/replay/index.rs: where the descent of `TraceIndex::frame_at` ends. It goes into the
-- first child whose window holds the time, and never back.
use mathlib.Core.Path.{subst₂}
use php_periscope.Common.{
  List-cases, ℕ, zero, suc, ◌≤◌, ◌<◌, Option, none, some, List, [], ◌∷◌, ◌≡◌, refl, arith, ap, true,
  false, sym, length, count, All, Option-cases, Bool-cases, inl, inr, subst,
}
use php_periscope.Trace.{TraceJson, FrameJson}
use php_periscope.Replay.Index.{
  TraceIndex, build, frame, children_of, kids_of, in_window, find_window, descend, frame_at,
  index_children, assemble,
}
use php_periscope.Replay.Index.Walk.{Walk, Walk-member, preorder-Walk}
use php_periscope.Replay.Index.Lookup.{roots_lem}
use php_periscope.Replay.Index.Build.{built_of_build}

module _ (index : TraceIndex) (time : ℕ) where
  -- The frame of the id is known, and its window holds the time.
  abbrev pub Shows : ℕ → Type 0
  Shows id = (f : FrameJson) × (frame index id ≡ some f) × (in_window time f ≡ true)

  abbrev pub Hides : ℕ → Type 0
  Hides id = (f : FrameJson) → frame index id ≡ some f → in_window time f ≡ false

  -- The first of the ids, in their order, whose window holds the time: no id before it does.
  pub data First : List ℕ → ℕ → Type 0 where
    here : (id : ℕ) (ids : List ℕ) → Shows id → First (id ∷ ids) id
    later : (x id : ℕ) (ids : List ℕ) → Hides x → First ids id → First (x ∷ ids) id

  -- A frame that is reached from the roots: the first root whose window holds the time, or, of
  -- the children of a frame that is reached, the first whose window does.
  pub data Reached : ℕ → Type 0 where
    top : (id : ℕ) → First index.roots id → Reached id
    under : (p id : ℕ) → Reached p → First (children_of index p) id → Reached id

  -- What `frame_at` may return: nothing, when no root's window holds the time, or a frame that is
  -- reached and has no child whose window holds it.
  abbrev pub Landing : Option ℕ → Type 0
  Landing none = All Hides index.roots
  Landing (some id) = Reached id × All Hides (children_of index id)

  pub count-First : {ids : List ℕ} {id : ℕ} → First ids id → 1 ≤ count id ids
  count-First (here id ids _) = ground arith
  count-First (later x id ids _ rest) = omega (arith, count-First rest)

  find_window_found : (ids : List ℕ) {id : ℕ} → find_window index time ids ≡ some id → First ids id
  unfolding find_window
  find_window_found [] h = absurd (cc h)
  find_window_found (x ∷ ids) {id} h = elim (Option-cases (frame index x)) [
    | inl unknown ↦
        later x id ids (λ f known. absurd (cc (known, unknown)))
          (find_window_found ids (rw (unknown, find_window) at h))
    | inr (f, known) ↦ elim (Bool-cases (in_window time f)) [
      | inl inside ↦
          let found : some x ≡ some id = ground arith in
          let e : x ≡ id = cc in subst (First (x ∷ ids)) e (here x ids (f, known, inside))
      | inr outside ↦
          let found : find_window index time ids ≡ some id = ground arith in
          later x id ids (λ g same. ground arith) (find_window_found ids found)
    ]
  ]

  find_window-none : (ids : List ℕ) → find_window index time ids ≡ none → All Hides ids
  unfolding find_window
  find_window-none [] h = tt
  find_window-none (x ∷ ids) h = (λ f known. ground arith, find_window-none ids (ground arith))

  -- Where the `loop` stands: before the roots, or below a frame that is reached.
  abbrev Stands : Option ℕ → List ℕ → Type 0
  Stands none ids = ids ≡ index.roots
  Stands (some p) ids = Reached p × (ids ≡ children_of index p)

  Reached-next :
      (current : Option ℕ) (ids : List ℕ) (id : ℕ) → Stands current ids → First ids id → Reached id
  Reached-next none ids id e first = top id (subst (λ ks. First ks id) e first)
  Reached-next (some p) ids id (reached, e) first =
      under p id reached (subst (λ ks. First ks id) e first)

  Landing-stop :
      (current : Option ℕ) (ids : List ℕ) → Stands current ids → All Hides ids → Landing current
  Landing-stop none ids e h = subst (All Hides) e h
  Landing-stop (some p) ids (reached, e) h = (reached, subst (All Hides) e h)

  children_of-kids_of : (k : ℕ) → children_of index k ≡ kids_of index.children k
  unfolding children_of
  children_of-kids_of k = refl

  descend_lem :
      (fuel : ℕ) (current : Option ℕ) (ids w : List ℕ)
      → Walk index.children ids w
      → length w < fuel
      → Stands current ids
      → (r : Option ℕ) × (descend index time fuel current ids ≡ some r) × Landing r
  unfolding descend
  descend_lem zero current ids w walk h st = absurd (omega arith)
  descend_lem (suc fuel) current ids w walk h st =
      elim (Option-cases (find_window index time ids)) [
        | inl lost ↦
            (current, rw (lost, descend), Landing-stop current ids st (find_window-none ids lost))
        | inr (id, found) ↦
            let first = find_window_found ids found in
            let (sub, below, short) = Walk-member index.children id walk (count-First first) in
            let reached = Reached-next current ids id st first in
            let (r, ends, deep) =
              descend_lem fuel (some id) (children_of index id) sub
                (subst (λ ks. Walk index.children ks sub) (sym (children_of-kids_of id)) below)
                (omega arith) (reached, refl) in
            elim (List-cases (children_of index id)) [
              | inl leaf ↦ (some id, rw (found, descend) (rw leaf), (reached, rw leaf tt))
              | inr (k, ks, inner) ↦ (r, ground arith, deep)
            ]
      ]

-- On an index that `build` made, the `loop` of `frame_at` ends within one round more than the
-- preorder is long. When it returns a frame, the frame is the end of a chain that starts with the
-- first root, in the order of the roots, whose window holds the time, and goes on with the first
-- child, in the order of the calls, whose window does, and no child of the frame has such a window;
-- when it returns nothing, the window of no root holds the time.
pub frame_at-Landing :
    (fuel : ℕ) (t : TraceJson) (index : TraceIndex) (time rounds : ℕ)
    → build fuel t ≡ some index
    → length index.preorder < rounds
    → (r : Option ℕ) × (frame_at index rounds time ≡ some r) × Landing index time r
unfolding frame_at assemble
frame_at-Landing fuel t index time rounds h enough =
    let same = (built_of_build fuel t h).0 in
    let children : index_children t ≡ index.children =
      sym (ap (λ (i : TraceIndex). i.children) same) in
    let walk : Walk index.children index.roots index.preorder =
      subst₂ (λ m ks. Walk m ks index.preorder) children (sym (roots_lem fuel t h))
        (preorder-Walk fuel t h) in
    descend_lem index time rounds none index.roots index.preorder walk enough refl

-- More rounds change nothing once the loop has ended.
descend_mono :
    (index : TraceIndex) (time fuel fuel' : ℕ) (current : Option ℕ) (ids : List ℕ) {r : Option ℕ}
    → fuel ≤ fuel'
    → descend index time fuel current ids ≡ some r
    → descend index time fuel' current ids ≡ some r
unfolding descend
descend_mono index time zero fuel' current ids le h = absurd (cc h)
descend_mono index time (suc fuel) zero current ids le h = absurd (omega arith)
descend_mono index time (suc fuel) (suc fuel') current ids {r} le h =
    elim (Option-cases (find_window index time ids)) [
      | inl lost ↦ ground arith
      | inr (id, found) ↦ elim (List-cases (children_of index id)) [
        | inl leaf ↦ ground arith
        | inr (k, ks, inner) ↦
            let deeper : descend index time fuel (some id) (children_of index id) ≡ some r =
              ground arith in
            ground (
              arith,
              descend_mono index time fuel fuel' (some id) (children_of index id) (omega arith)
                  deeper,
            )
      ]
    ]

pub frame_at_mono :
    (index : TraceIndex) (time fuel fuel' : ℕ) {r : Option ℕ}
    → fuel ≤ fuel'
    → frame_at index fuel time ≡ some r
    → frame_at index fuel' time ≡ some r
unfolding frame_at
frame_at_mono index time fuel fuel' le h = descend_mono index time fuel fuel' none index.roots le h
