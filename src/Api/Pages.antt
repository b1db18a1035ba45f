-- ===== src/Api/Pages.antt =====
-- daemon/src/api.rs: what a page of frames holds.
use php_periscope.Common.{
  ℕ, zero, suc, ◌+◌, ◌-◌, ◌≤◌, none, List, [], ◌∷◌, ◌≡◌, refl, sym, ap, ◌∙◌, arith, if◌then◌else◌,
  ltb, length, take, drop, get_elem?, get_elem?-drop, get_elem?_of_ge, unwrap_or, Bool-cases, inl,
  inr,
}
use php_periscope.Trace.{TraceJson}
use php_periscope.Api.Views.{PaginateQuery, at_most, list_frames}

get_elem?-take {ℓ} :
    {A : Type ℓ} (n i : ℕ) (xs : List A)
    → get_elem? (take n xs) i ≡ (if ltb i n then get_elem? xs i else none)
get_elem?-take zero i xs = ground arith
get_elem?-take (suc n) i [] = ground arith
get_elem?-take (suc n) zero (x ∷ xs) = ground arith
get_elem?-take (suc n) (suc i) (x ∷ xs) = ground (arith, get_elem?-take n i xs)

length-take {ℓ} : {A : Type ℓ} (n : ℕ) (xs : List A) → length (take n xs) ≡ at_most n (length xs)
length-take zero xs = ground arith
length-take (suc n) [] = ground arith
length-take (suc n) (x ∷ xs) = ground (arith, length-take n xs)

length-drop {ℓ} : {A : Type ℓ} (n : ℕ) (xs : List A) → length (drop n xs) ≡ length xs - n
length-drop zero xs = omega arith
length-drop (suc n) [] = omega arith
length-drop (suc n) (x ∷ xs) = omega (arith, length-drop n xs)

-- Past the end, an offset that is cut down to the end names no frame either.
get_elem?-at_most {ℓ} :
    {A : Type ℓ} (k i : ℕ) (xs : List A)
    → get_elem? xs (at_most k (length xs) + i) ≡ get_elem? xs (k + i)
get_elem?-at_most k i xs = elim (Bool-cases (ltb (length xs) k)) [
  | inr inside ↦ rw inside refl
  | inl past ↦
      let beyond : length xs ≤ k + i = ground (arith, past) in
      rw past
        (get_elem?_of_ge xs (length xs + i) (omega arith) ∙ sym (get_elem?_of_ge xs (k + i) beyond))
]

-- A page tells how many frames the trace has, its offset is within them, its items are as many as
-- the limit and the frames after the offset allow, and the item at `i`, where `i` is below the
-- limit, is the frame at the offset asked for plus `i`, none where the trace has no such frame.
pub list_frames_lem :
    (trace : TraceJson) (q : PaginateQuery) (i : ℕ)
    → let p = list_frames trace q in
      (p.total ≡ length trace.frames)
      × (p.offset ≤ p.total)
      × (length p.items ≡ at_most p.limit (p.total - p.offset))
      × (get_elem? p.items i
          ≡ (if ltb i p.limit then get_elem? trace.frames (unwrap_or q.offset 0 + i) else none))
unfolding list_frames
list_frames_lem trace q i =
    let offset = at_most (unwrap_or q.offset 0) (length trace.frames) in
    let rest = drop offset trace.frames in
    let limit = unwrap_or q.limit 500 in
    (
      refl,
      ground arith,
      length-take limit rest ∙ ap (at_most limit) (length-drop offset trace.frames),
      get_elem?-take limit i rest
          ∙ rw
              (
                get_elem?-drop offset i trace.frames,
                get_elem?-at_most (unwrap_or q.offset 0) i trace.frames,
              )
              refl,
    )
