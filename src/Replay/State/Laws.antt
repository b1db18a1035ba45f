-- ===== src/Replay/State/Laws.antt =====
-- The state at a moment puts the parts of the index together.
use php_periscope.Common.{
  ℕ, zero, suc, ◌+◌, ◌≤◌, Option, none, some, List, [], ◌∷◌, ◌≡◌, refl, arith, ◌∙◌, ap, length,
  count, map, take, All, All-of_count, nat_beq,
}
use php_periscope.Common.Sort.{count_where-sort_by, by_key}
use php_periscope.Trace.{TraceJson, EventJson}
use php_periscope.Replay.Index.{TraceIndex, build, frame, event, events_before}
use php_periscope.Replay.Index.Positions.{HasDistinct, find_sound, find_total}
use php_periscope.Replay.Index.Forest.{Rooted}
use php_periscope.Replay.Index.Build.{preorder-sound}
use php_periscope.Replay.Index.Lookup.{event_lem}
use php_periscope.Replay.Index.Stack.{chain, stack_from-chain}
use php_periscope.Replay.Index.Windows.{Landing, frame_at-Landing, frame_at_mono}
use php_periscope.Replay.Index.Events.{by_time_lem, at_of}
use php_periscope.Replay.Cursor.{frames_of}
use php_periscope.Replay.Cursor.Seek.{Reached-in_preorder}
use php_periscope.Replay.State.{
  ReconstructedState, at_time, at_frame_internal, stack_of, events_of, reconstruct,
}

-- The event of the id is known.
abbrev Found : TraceIndex → ℕ → Type 0
Found index id = (e : EventJson) × (event index id ≡ some e) × (e.id ≡ id)

All-take {ℓ κ} : {A : Type ℓ} (P : A → Type κ) (n : ℕ) (xs : List A) → All P xs → All P (take n xs)
All-take P zero xs h = tt
All-take P (suc n) [] h = tt
All-take P (suc n) (x ∷ xs) (p, h) = (p, All-take P n xs h)

ids-events_of :
    (index : TraceIndex) (ids : List ℕ)
    → All (Found index) ids
    → map (λ e. e.id) (events_of index ids) ≡ ids
unfolding events_of
ids-events_of index [] h = refl
ids-events_of index (id ∷ ids) ((e, known, same), h) =
    rw (known, events_of) (rw same (ap (◌∷◌ id) (ids-events_of index ids h)))

-- The current frame and the stack that belong to the frame that was found.
abbrev pub Shown : TraceJson → TraceIndex → Option ℕ → ReconstructedState → Type 0
Shown t index none s = (s.current_frame ≡ none) × (s.stack ≡ [])
Shown t index (some id) s =
    (r : Rooted t.frames id) × (s.current_frame ≡ frame index id)
    × (s.stack ≡ frames_of index (chain r))

module _ (fuel : ℕ) (t : TraceJson) (index : TraceIndex) (h : build fuel t ≡ some index) where
  by_time-Found : All (Found index) index.events_by_time
  by_time-Found = All-of_count _ index.events_by_time (λ x c.
      let inside : 1 ≤ count x (map (λ e. e.id) t.observability_events) = omega (
        arith,
        ap (count x) (by_time_lem fuel t index h)
            ∙ count_where-sort_by (by_key (at_of t.observability_events)) (nat_beq x) _,
      ) in
      let (e, found) = find_total (λ e. e.id) t.observability_events x inside in
      let (_, _, same) = find_sound (λ e. e.id) t.observability_events x found in
      (e, event_lem fuel t h x ∙ found, same))

  -- The events of the state are those that `events_before` lists, in its order.
  pub events_so_far_lem :
      (time : ℕ)
      → map (λ e. e.id) (events_of index (events_before index time)) ≡ events_before index time
  unfolding events_before
  events_so_far_lem time =
      ids-events_of index _ (All-take (Found index) _ index.events_by_time by_time-Found)

  module _ (distinct : HasDistinct (λ f. f.id) t.frames)
      (positive : count 0 (map (λ f. f.id) t.frames) ≡ 0) where
    abbrev Rebuilt : ℕ → ℕ → Option ℕ → Type 0
    Rebuilt enough time found =
        (s : ReconstructedState) × (((rounds : ℕ)
            → enough ≤ rounds
            → at_frame_internal index rounds found time ≡ some s)
          × (s.at_micros ≡ time)
          × Shown t index found s
          × (map (λ e. e.id) s.events_so_far ≡ events_before index time))

    rebuilt :
        (time : ℕ) (found : Option ℕ)
        → Landing index time found
        → (enough : ℕ) × Rebuilt enough time found
    unfolding at_frame_internal stack_of
    rebuilt time none deep = (
      0,
      (
        reconstruct index none time [],
        ((λ rounds le. refl), refl, (refl, refl), events_so_far_lem time),
      ),
    )
    rebuilt time (some id) (reached, deep) =
        let r =
          preorder-sound fuel t index h id
            (Reached-in_preorder fuel t (record { index = index; pos = 0 }) h time id reached) in
        (
          length (chain r),
          (
            reconstruct index (some id) time (frames_of index (chain r)),
            (
              λ rounds le. rw (stack_from-chain fuel t index h distinct positive r rounds le),
              refl,
              (r, refl, refl),
              events_so_far_lem time,
            ),
          ),
        )

    -- When no two frames share an id and none has the id 0, `at_time` ends: it returns the
    -- frame of `frame_at`, with its chain of parents as the stack, and the events up to the time.
    pub at_time_lem :
        (time : ℕ)
        → (enough : ℕ) × (found : Option ℕ) × (s : ReconstructedState) × (((rounds : ℕ)
              → enough ≤ rounds
              → at_time index rounds time ≡ some s)
            × Landing index time found
            × (s.at_micros ≡ time)
            × Shown t index found s
            × (map (λ e. e.id) s.events_so_far ≡ events_before index time))
    unfolding at_time
    at_time_lem time =
        let n = suc (length index.preorder) in
        let (found, ends, deep) = frame_at-Landing fuel t index time n h (omega arith) in
        let (enough, result) = rebuilt time found deep in
        let (s, facts) = result in
        (
          n + enough,
          found,
          s,
          (
            λ rounds le.
                rw (frame_at_mono index time n rounds (omega arith) ends)
                  (facts.0 rounds (omega arith)),
            deep,
            facts.1,
            facts.2,
            facts.3,
          ),
        )
