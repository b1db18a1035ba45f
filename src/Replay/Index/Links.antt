-- ===== src/Replay/Index/Links.antt =====
-- The call-tree edges of `TraceIndex::build`: the children of a frame are the frames that name it
-- as their parent, in call order, and the roots are the frames without a parent.
use php_periscope.Common.{
  inl, inr, ℕ, List, [], ◌∷◌, ◌++◌, ◌≡◌, refl, ◌≢◌, ap, sym, arith, nat_beq, nat_eq, if◌then◌else◌,
  Bool-cases, ◌∙◌,
}
use php_periscope.Common.Maps.{Map, get, get-entry}
use php_periscope.Common.Sort.{sort_by_key, sort_by}
use php_periscope.Trace.{FrameJson}
use php_periscope.Replay.Index.{link_frame, link_frames, kids_of, sort_children}
use mathlib.Core.List.{append-nil, append_assoc}

-- The ids of the frames with a parent, in the order of the trace.
abbrev pub child_ids : ℕ → List FrameJson → List ℕ
child_ids p [] = []
child_ids p (f ∷ fs) = if nat_beq f.parent_id p then f.id ∷ child_ids p fs else child_ids p fs

link_frame_kids :
    (p : ℕ) (f : FrameJson) (acc : Map ℕ (List ℕ) × List ℕ)
    → p ≢ 0
    → kids_of (link_frame f acc).0 p
      ≡ (if nat_beq f.parent_id p then kids_of acc.0 p ++ f.id ∷ [] else kids_of acc.0 p)
unfolding link_frame kids_of
link_frame_kids p f acc h =
    ground (arith, get-entry f.parent_id p [] (λ kids. kids ++ f.id ∷ []) acc.0)

link_children :
    (p : ℕ) (fs : List FrameJson) (acc : Map ℕ (List ℕ) × List ℕ)
    → p ≢ 0
    → kids_of (link_frames fs acc).0 p ≡ kids_of acc.0 p ++ child_ids p fs
unfolding link_frames
link_children p [] acc h = sym (append-nil _)
link_children p (f ∷ fs) acc h =
    link_children p fs (link_frame f acc) h ∙ elim (Bool-cases (nat_beq f.parent_id p)) [
      | inl child ↦
          rw (link_frame_kids p f acc h) (rw child (append_assoc (kids_of acc.0 p) (f.id ∷ []) _))
      | inr other ↦ rw (link_frame_kids p f acc h) (rw other)
    ]

link_frame_roots :
    (f : FrameJson) (acc : Map ℕ (List ℕ) × List ℕ)
    → (link_frame f acc).1 ≡ (if nat_beq f.parent_id 0 then acc.1 ++ f.id ∷ [] else acc.1)
unfolding link_frame
link_frame_roots f acc = ground arith

link_roots :
    (fs : List FrameJson) (acc : Map ℕ (List ℕ) × List ℕ)
    → (link_frames fs acc).1 ≡ acc.1 ++ child_ids 0 fs
unfolding link_frames
link_roots [] acc = sym (append-nil _)
link_roots (f ∷ fs) acc =
    link_roots fs (link_frame f acc) ∙ elim (Bool-cases (nat_beq f.parent_id 0)) [
      | inl root ↦ rw (link_frame_roots f acc) (rw root (append_assoc acc.1 (f.id ∷ []) _))
      | inr child ↦ rw (link_frame_roots f acc) (rw child)
    ]

kids_of-sort_children :
    (key : ℕ → ℕ) (p : ℕ) (c : Map ℕ (List ℕ))
    → kids_of (sort_children key c) p ≡ sort_by_key key (kids_of c p)
unfolding kids_of sort_children get sort_by
kids_of-sort_children key p [] = refl
kids_of-sort_children key p ((q, kids) ∷ c) = elim (Bool-cases (nat_beq q p)) [
  | inl same ↦ rw (same, kids_of, get)
  | inr other ↦ rw (other, kids_of, get) (kids_of-sort_children key p c)
]

-- The two results of the linking pass on a whole trace.
pub children_lem :
    (key : ℕ → ℕ) (fs : List FrameJson) (p : ℕ)
    → p ≢ 0
    → kids_of (sort_children key (link_frames fs ([], [])).0) p ≡ sort_by_key key (child_ids p fs)
unfolding kids_of get
children_lem key fs p h =
    kids_of-sort_children key p _ ∙ ap (sort_by_key key) (link_children p fs ([], []) h)

-- No frame is filed under the id 0.
link_frame_kids_zero :
    (f : FrameJson) (acc : Map ℕ (List ℕ) × List ℕ)
    → kids_of (link_frame f acc).0 0 ≡ kids_of acc.0 0
unfolding link_frame kids_of
link_frame_kids_zero f acc =
    ground (arith, get-entry f.parent_id 0 [] (λ kids. kids ++ f.id ∷ []) acc.0)

link_frames_kids_zero :
    (fs : List FrameJson) (acc : Map ℕ (List ℕ) × List ℕ)
    → kids_of (link_frames fs acc).0 0 ≡ kids_of acc.0 0
unfolding link_frames
link_frames_kids_zero [] acc = refl
link_frames_kids_zero (f ∷ fs) acc =
    link_frames_kids_zero fs (link_frame f acc) ∙ link_frame_kids_zero f acc

pub children_zero :
    (key : ℕ → ℕ) (fs : List FrameJson)
    → kids_of (sort_children key (link_frames fs ([], [])).0) 0 ≡ []
unfolding kids_of get sort_by
children_zero key fs =
    kids_of-sort_children key 0 _ ∙ ap (sort_by_key key) (link_frames_kids_zero fs ([], []))

pub roots_lem : (fs : List FrameJson) → (link_frames fs ([], [])).1 ≡ child_ids 0 fs
roots_lem fs = link_roots fs ([], [])
