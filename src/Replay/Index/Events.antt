-- ===== src/Replay/Index/Events.antt =====
-- `TraceIndex::events_before`: the binary search cuts the sorted list exactly at the time.
use php_periscope.Common.{
  ℕ, ◌≤◌, ◌<◌, some, List, [], ◌∷◌, ◌≡◌, refl, arith, ap, true, false, sym, ◌∙◌, count, nat_beq,
  if◌then◌else◌, get_elem?, Bool-cases, inl, inr, map_some, map, Bool, ◌&&◌, leb, take, retain,
  count_where, All, All-of_count, All-of_get, unwrap_or,
}
use php_periscope.Common.Sort.{
  sort_by_key, IsSorted, by_key, IsSorted-sort_by_key, count_where-sort_by,
}
use php_periscope.Trace.{TraceJson, EventJson}
use php_periscope.Replay.Index.{
  TraceIndex, build, event, events_before, partition_point, key_at, positions, assemble,
}
use php_periscope.Replay.Index.Positions.{HasDistinct, find, find_total, find_get}
use php_periscope.Replay.Index.Lookup.{event_lem}
use php_periscope.Replay.Index.Build.{built_of_build}

retain-eq-nil : (p : ℕ → Bool) (xs : List ℕ) → All (λ x. p x ≡ false) xs → retain p xs ≡ []
unfolding retain
retain-eq-nil p [] h = refl
retain-eq-nil p (x ∷ xs) (f, h) = rw f (retain-eq-nil p xs h)

late_after :
    (p : ℕ → Bool) (key : ℕ → ℕ) (time first : ℕ) (ys : List ℕ)
    → time < first
    → All (λ y. p y ≡ leb (key y) time) ys
    → All (λ y. leb first (key y) ≡ true) ys
    → All (λ y. p y ≡ false) ys
late_after p key time first [] lt a b = tt
late_after p key time first (y ∷ ys) lt (a, as') (b, bs) =
    (ground arith, late_after p key time first ys lt as' bs)

-- On a list that the key sorts, the prefix before the partition point is what passes the test.
take-partition_point :
    (p : ℕ → Bool) (key : ℕ → ℕ) (time : ℕ) (xs : List ℕ)
    → All (λ x. p x ≡ leb (key x) time) xs
    → IsSorted (by_key key) xs
    → take (partition_point p xs) xs ≡ retain p xs
unfolding partition_point retain
take-partition_point p key time [] h s = refl
take-partition_point p key time (x ∷ xs) (e, h) (above, s) = elim (Bool-cases (p x)) [
  | inl early ↦ rw early (ap (◌∷◌ x) (take-partition_point p key time xs h s))
  | inr late ↦
      rw late (sym (retain-eq-nil p xs (late_after p key time (key x) xs (ground arith) h above)))
]

count-retain :
    (p : ℕ → Bool) (x : ℕ) (xs : List ℕ) → count x (retain p xs) ≡ (if p x then count x xs else 0)
unfolding retain
count-retain p x [] = ground arith
count-retain p x (y ∷ ys) = elim (Bool-cases (nat_beq x y)) [
  | inl same ↦ let e : p x ≡ p y = ap p (ground arith) in ground (arith, count-retain p x ys)
  | inr other ↦ ground (arith, count-retain p x ys)
]

-- The time of the event of an id.
abbrev pub at_of : List EventJson → ℕ → ℕ
at_of es = key_at (λ e. e.at_micros) es (positions (λ e. e.id) 0 es [])

module _ (fuel : ℕ) (t : TraceJson) (index : TraceIndex) (h : build fuel t ≡ some index) where
  abbrev ids : List ℕ
  ids = map (λ e. e.id) t.observability_events

  pub by_time_lem : index.events_by_time ≡ sort_by_key (at_of t.observability_events) ids
  unfolding assemble
  by_time_lem = ap (λ (i : TraceIndex). i.events_by_time) (built_of_build fuel t h).0

  abbrev early : ℕ → ℕ → Bool
  early time id = unwrap_or (map_some (λ e. leb e.at_micros time) (event index id)) false

  early_lem :
      (time id : ℕ) → 1 ≤ count id ids → early time id ≡ leb (at_of t.observability_events id) time
  unfolding key_at
  early_lem time id c =
      let (e, found) = find_total (λ e. e.id) t.observability_events id c in
      rw (event_lem fuel t h id) (rw found refl)

  early_event :
      (time x j : ℕ) (e : EventJson)
      → HasDistinct (λ e. e.id) t.observability_events
      → get_elem? t.observability_events j ≡ some e
      → e.id ≡ x
      → leb e.at_micros time ≡ early time x
  early_event time x j e d at_j same =
      let found : event index x ≡ some e =
        event_lem fuel t h x
        ∙ ap (find _ t.observability_events) (sym same)
        ∙ find_get (λ e. e.id) t.observability_events j e d at_j in
      rw found

  count_early :
      (x : ℕ) (b : Bool) (time : ℕ) (es : List EventJson)
      → All (λ e. e.id ≡ x → leb e.at_micros time ≡ b) es
      → count_where (λ e. nat_beq x e.id && leb e.at_micros time) es
        ≡ (if b then count x (map (λ e. e.id) es) else 0)
  count_early x b time [] hs = ground arith
  count_early x b time (e ∷ es) (k, hs) = elim (Bool-cases (nat_beq x e.id)) [
    | inl same ↦ let known = k (ground arith) in ground (arith, count_early x b time es hs)
    | inr other ↦ ground (arith, count_early x b time es hs)
  ]

  -- When no two events share an id, `events_before` lists each event up to the time once, and no
  -- other.
  pub events_before_exact :
      HasDistinct (λ e. e.id) t.observability_events
      → (time x : ℕ)
      → count x (events_before index time)
        ≡ count_where (λ e. nat_beq x e.id && leb e.at_micros time) t.observability_events
  unfolding events_before
  events_before_exact d time x =
      let key = at_of t.observability_events in
      let sorted : IsSorted (by_key key) index.events_by_time =
        rw by_time_lem (IsSorted-sort_by_key key ids) in
      let same_count : (y : ℕ) → count y index.events_by_time ≡ count y ids =
        λ y. ap (count y) by_time_lem ∙ count_where-sort_by (by_key key) (nat_beq y) ids in
      let tests : All (λ id. early time id ≡ leb (key id) time) index.events_by_time =
        All-of_count _ index.events_by_time
          (λ y c. early_lem time y (omega (arith, same_count y))) in
      ap (count x) (take-partition_point (early time) key time index.events_by_time tests sorted)
      ∙ count-retain (early time) x index.events_by_time
      ∙ ap (λ (n : ℕ). if early time x then n else 0) (same_count x)
      ∙ sym (
          count_early x (early time x) time t.observability_events (
            All-of_get _ t.observability_events
              (λ j e at_j same. early_event time x j e d at_j same)))
