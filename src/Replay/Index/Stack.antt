-- ===== src/Replay/Index/Stack.antt =====
-- `TraceIndex::stack_from`: the chain of parents, leaf first.
use php_periscope.Common.{
  ℕ, zero, suc, ◌≤◌, none, some, List, [], ◌∷◌, ◌≡◌, ◌≢◌, refl, arith, ap, ◌∙◌, length, count,
  nat_beq, get_elem?, Bool-cases, inl, inr, map_some, map,
}
use php_periscope.Trace.{TraceJson, FrameJson}
use php_periscope.Replay.Index.{TraceIndex, build, frame, stack_from}
use php_periscope.Replay.Index.Positions.{HasDistinct, count_of_Holds}
use php_periscope.Replay.Index.Links.{child_ids}
use php_periscope.Replay.Index.Forest.{Rooted, root, child}
use php_periscope.Replay.Index.Lookup.{frame_iff}

-- The ids from a frame up to the root that its derivation names.
abbrev pub chain : {fs : List FrameJson} {x : ℕ} → Rooted fs x → List ℕ
chain (root x h) = x ∷ []
chain (child p x r ne h) = x ∷ chain r

-- A child of `p` is a frame whose parent is `p`.
pub frame_of_child :
    (fs : List FrameJson) (p x : ℕ)
    → 1 ≤ count x (child_ids p fs)
    → (j : ℕ) × (f : FrameJson) × (get_elem? fs j ≡ some f) × (f.id ≡ x) × (f.parent_id ≡ p)
frame_of_child [] p x h = absurd (omega arith)
frame_of_child (f ∷ fs) p x h = elim (Bool-cases (nat_beq f.parent_id p)) [
  | inl under ↦ elim (Bool-cases (nat_beq x f.id)) [
    | inl here ↦ (0, f, refl, ground arith, ground arith)
    | inr other ↦
        let (j, g, at_j, same, parent) = frame_of_child fs p x (ground arith) in
        (suc j, g, at_j, same, parent)
  ]
  | inr apart ↦
      let (j, g, at_j, same, parent) = frame_of_child fs p x (ground arith) in
      (suc j, g, at_j, same, parent)
]

-- One round of the loop.
stack_from-step :
    (index : TraceIndex) (fuel x : ℕ) (f : FrameJson)
    → x ≢ 0
    → frame index x ≡ some f
    → stack_from index (suc fuel) x ≡ map_some (◌∷◌ x) (stack_from index fuel f.parent_id)
unfolding stack_from
stack_from-step index fuel x f ne known = ground arith

stack_from-zero : (index : TraceIndex) (fuel : ℕ) → stack_from index fuel 0 ≡ some []
unfolding stack_from
stack_from-zero index zero = refl
stack_from-zero index (suc fuel) = refl

-- On an index that `build` made of frames with distinct, non-zero ids, the stack of a frame that
-- hangs from a root is its chain of parents up to that root, the frame itself first.
pub stack_from-chain :
    (fuel : ℕ) (t : TraceJson) (index : TraceIndex)
    → build fuel t ≡ some index
    → HasDistinct (λ f. f.id) t.frames
    → count 0 (map (λ f. f.id) t.frames) ≡ 0
    → {x : ℕ} (r : Rooted t.frames x) (rounds : ℕ) → length (chain r) ≤ rounds
    → stack_from index rounds x ≡ some (chain r)
stack_from-chain fuel t index h d nz (root x top) zero enough = absurd (omega arith)
stack_from-chain fuel t index h d nz (root x top) (suc rounds) enough =
    let (j, f, at_j, same, parent) = frame_of_child t.frames 0 x top in
    let known = (frame_iff fuel t h d x f).1 (j, at_j, same) in
    stack_from-step index rounds x f
      (λ z. absurd (omega (arith, count_of_Holds (λ g. g.id) t.frames 0 j (f, at_j, same ∙ z))))
      known
    ∙ ap (map_some (◌∷◌ x)) (ap (stack_from index rounds) parent ∙ stack_from-zero index rounds)
stack_from-chain fuel t index h d nz (child p x r ne under) zero enough = absurd (omega arith)
stack_from-chain fuel t index h d nz (child p x r ne under) (suc rounds) enough =
    let (j, f, at_j, same, parent) = frame_of_child t.frames p x under in
    let known = (frame_iff fuel t h d x f).1 (j, at_j, same) in
    stack_from-step index rounds x f
      (λ z. absurd (omega (arith, count_of_Holds (λ g. g.id) t.frames 0 j (f, at_j, same ∙ z))))
      known
    ∙ ap (map_some (◌∷◌ x)) (
        ap (stack_from index rounds) parent
        ∙ stack_from-chain fuel t index h d nz r rounds (omega arith))

-- From a frame that is its own parent the loop ends after no number of rounds.
pub stack_from_diverges :
    (index : TraceIndex) (k : ℕ) (f : FrameJson) (rounds : ℕ)
    → k ≢ 0
    → frame index k ≡ some f
    → f.parent_id ≡ k
    → stack_from index rounds k ≡ none
unfolding stack_from
stack_from_diverges index k f zero ne known self = ground arith
stack_from_diverges index k f (suc rounds) ne known self =
    stack_from-step index rounds k f ne known
    ∙ ap (map_some (◌∷◌ k))
        (ap (stack_from index rounds) self ∙ stack_from_diverges index k f rounds ne known self)
