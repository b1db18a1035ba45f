-- ===== src/Grouping/Groups.antt =====
-- daemon/src/grouping.rs: what `group_events` returns, against the events of each fingerprint.
use php_periscope.Common.{
  ℕ, ◌+◌, max, Option, none, some, List, [], ◌∷◌, ◌++◌, Bool, true, false, ◌≡◌, refl, sym, ap, ◌∙◌,
  subst, arith, if◌then◌else◌, ◌==◌, list_eq, length, map, retain, Bool-cases, Option-cases,
  List-cases, inl, inr, ◌||◌,
}
use mathlib.Core.List.{append-nil, append_assoc}
use php_periscope.Common.Text.{Text}
use php_periscope.Common.Maps.{Map, get, remove, get-insert, get-remove}
use php_periscope.Trace.{EventJson}
use php_periscope.Grouping.{
  Digest, EventGroup, key_of, open_group, join_group, add_event, add_events, take_groups,
  group_events, text_mem,
}

module _ (d : Digest) where
  abbrev pub has_key : Text → EventJson → Bool
  has_key k ev = key_of d ev == k

  -- The fingerprints of the events, each once, in the order in which they first occur.
  unfoldable pub first_seen : List Text → List EventJson → List Text
  first_seen order [] = order
  first_seen order (ev ∷ evs) =
      let known = first_seen order evs in
      let new = first_seen (order ++ key_of d ev ∷ []) evs in
      if text_mem (key_of d ev) order then known else new

  -- A group, or none yet, with one event more, and with some.
  abbrev joined : Option EventGroup → EventJson → EventGroup
  joined none ev = open_group d ev
  joined (some g) ev = join_group d g ev

  unfoldable grown : Option EventGroup → List EventJson → Option EventGroup
  grown g [] = g
  grown g (ev ∷ evs) = grown (some (joined g ev)) evs

  -- The groups know exactly the keys of the order.
  abbrev is_known : Option EventGroup → Bool
  is_known none = false
  is_known (some g) = true

  abbrev Agree : List Text × Map Text EventGroup → Type 0
  Agree acc = (k : Text) → text_mem k acc.0 ≡ is_known (get acc.1 k)

  text_mem-append :
      (k j : Text) (ks : List Text) → text_mem k (ks ++ j ∷ []) ≡ (text_mem k ks || j == k)
  text_mem-append k j [] = ground arith
  text_mem-append k j (i ∷ ks) = ground (arith, text_mem-append k j ks)

  -- No key stands twice.
  abbrev Distinct : List Text → Type 0
  Distinct [] = Unit
  Distinct (k ∷ ks) = (text_mem k ks ≡ false) × Distinct ks

  Distinct-append :
      (k : Text) (ks : List Text) → Distinct ks → text_mem k ks ≡ false → Distinct (ks ++ k ∷ [])
  Distinct-append k [] h new = (refl, tt)
  Distinct-append k (j ∷ ks) (p, h) new = (
    ground (arith, text_mem-append j k ks, list_eq.same_iff j k, list_eq.same_iff k j),
    Distinct-append k ks h (ground arith),
  )

  first_seen-Distinct :
      (evs : List EventJson) (order : List Text) → Distinct order → Distinct (first_seen order evs)
  unfolding first_seen
  first_seen-Distinct [] order h = h
  first_seen-Distinct (ev ∷ evs) order h = elim (Bool-cases (text_mem (key_of d ev) order)) [
    | inl old ↦ rw old (first_seen-Distinct evs order h)
    | inr new ↦ rw new (
        first_seen-Distinct evs (order ++ key_of d ev ∷ [])
          (Distinct-append (key_of d ev) order h new))
  ]

  get-add_event :
      (k : Text) (ev : EventJson) (acc : List Text × Map Text EventGroup)
      → get (add_event d ev acc).1 k
        ≡ (if has_key k ev then some (joined (get acc.1 (key_of d ev)) ev) else get acc.1 k)
  unfolding add_event
  get-add_event k ev (order, groups) = elim (Option-cases (get groups (key_of d ev))) [
    | inl new ↦ rw (add_event, new) (get-insert (key_of d ev) k (open_group d ev) groups)
    | inr (g, old) ↦ rw (add_event, old) (get-insert (key_of d ev) k (join_group d g ev) groups)
  ]

  order-add_event :
      (ev : EventJson) (acc : List Text × Map Text EventGroup)
      → (add_event d ev acc).0
        ≡ (if is_known (get acc.1 (key_of d ev)) then acc.0 else acc.0 ++ key_of d ev ∷ [])
  unfolding add_event
  order-add_event ev (order, groups) = elim (Option-cases (get groups (key_of d ev))) [
    | inl new ↦ rw (add_event, new) refl
    | inr (g, old) ↦ rw (add_event, old) refl
  ]

  get-add_events :
      (k : Text) (evs : List EventJson) (acc : List Text × Map Text EventGroup)
      → get (add_events d evs acc).1 k ≡ grown (get acc.1 k) (retain (has_key k) evs)
  unfolding add_events grown retain
  get-add_events k [] acc = refl
  get-add_events k (ev ∷ evs) acc =
      get-add_events k evs (add_event d ev acc) ∙ elim (Bool-cases (has_key k ev)) [
        | inl same ↦
            rw (get-add_event k ev acc, same)
              (ap (λ j. grown (some (joined (get acc.1 j) ev)) (retain (has_key k) evs))
                ((list_eq.same_iff (key_of d ev) k).0 same))
        | inr other ↦ rw (get-add_event k ev acc, other) refl
      ]

  Agree-add_event :
      (ev : EventJson) (acc : List Text × Map Text EventGroup)
      → Agree acc
      → Agree (add_event d ev acc)
  Agree-add_event ev acc agree k =
      rw (order-add_event ev acc, get-add_event k ev acc)
        (ground (
          arith,
          agree k,
          agree (key_of d ev),
          text_mem-append k (key_of d ev) acc.0,
          list_eq.same_iff (key_of d ev) k,
        ))

  order-add_events :
      (evs : List EventJson) (acc : List Text × Map Text EventGroup)
      → Agree acc
      → (add_events d evs acc).0 ≡ first_seen acc.0 evs
  unfolding add_events first_seen
  order-add_events [] acc agree = refl
  order-add_events (ev ∷ evs) acc agree =
      order-add_events evs (add_event d ev acc) (Agree-add_event ev acc agree)
      ∙ elim (Bool-cases (is_known (get acc.1 (key_of d ev)))) [
        | inl old ↦ rw (order-add_event ev acc, agree (key_of d ev), old) refl
        | inr new ↦ rw (order-add_event ev acc, agree (key_of d ev), new) refl
      ]

  Agree-add_events :
      (evs : List EventJson) (acc : List Text × Map Text EventGroup)
      → Agree acc
      → Agree (add_events d evs acc)
  unfolding add_events
  Agree-add_events [] acc agree = agree
  Agree-add_events (ev ∷ evs) acc agree =
      Agree-add_events evs (add_event d ev acc) (Agree-add_event ev acc agree)

-- The groups stand for the keys, one for each, in the order of the keys.
abbrev pub Each : (Text → EventGroup → Type 0) → List Text → List EventGroup → Type 0
Each P [] [] = Unit
Each P [] (_ ∷ _) = ⊥
Each P (_ ∷ _) [] = ⊥
Each P (k ∷ ks) (g ∷ gs) = P k g × Each P ks gs

module _ (d : Digest) where
  take_groups-Each :
      (P : Text → EventGroup → Type 0) (order : List Text) (groups : Map Text EventGroup)
      → Distinct d order
      → ((k : Text) → text_mem k order ≡ true → (g : EventGroup) × (get groups k ≡ some g) × P k g)
      → Each P order (take_groups d order groups)
  unfolding take_groups
  take_groups-Each P [] groups h holds = tt
  take_groups-Each P (k ∷ order) groups (new, h) holds =
      let (g, known, p) = holds k (ground (arith, list_eq.same_iff k k)) in
      rw (take_groups, known)
        (
          p,
          take_groups-Each P order (remove k groups) h (λ j c.
              let (g', known', p') = holds j (ground arith) in
              (g', ground (arith, get-remove k j groups, list_eq.same_iff k j), p')),
        )

  -- The latest of a time and the times of some events.
  unfoldable pub latest : ℕ → List EventJson → ℕ
  latest at [] = at
  latest at (ev ∷ evs) = latest (max ev.at_micros at) evs

  -- The group of a fingerprint whose events are `ev` and then `evs`.
  abbrev pub group_of : Text → EventJson → List EventJson → EventGroup
  group_of k ev evs = record {
    fingerprint = k;
    type_tag = ev.type_tag;
    count = length (ev ∷ evs);
    first_at_micros = ev.at_micros;
    last_at_micros = latest ev.at_micros evs;
    sample = ev;
    event_ids = map (λ e. e.id) (ev ∷ evs);
  }

  abbrev joined_all : EventGroup → List EventJson → EventGroup
  joined_all g evs = record g {
    count = g.count + length evs;
    last_at_micros = latest g.last_at_micros evs;
    event_ids = g.event_ids ++ map (λ e. e.id) evs;
  }

  regroup :
      (g : EventGroup) (m : ℕ) {c c' : ℕ} {ids ids' : List ℕ}
      → c ≡ c'
      → ids ≡ ids'
      → some (record g { count = c; last_at_micros = m; event_ids = ids })
        ≡ some (record g { count = c'; last_at_micros = m; event_ids = ids' })
  regroup g m p q = λ i. some (record g { count = p i; last_at_micros = m; event_ids = q i })

  grown_lem :
      (g : EventGroup) (evs : List EventJson) → grown d (some g) evs ≡ some (joined_all g evs)
  unfolding grown latest join_group
  grown_lem g [] = regroup g g.last_at_micros (omega arith) (sym (append-nil g.event_ids))
  grown_lem g (ev ∷ evs) =
      grown_lem (join_group d g ev) evs
      ∙ regroup g (latest (max ev.at_micros g.last_at_micros) evs) (omega arith)
          (append_assoc g.event_ids (ev.id ∷ []) (map (λ e. e.id) evs))

  -- The group is that of the events of the fingerprint.
  abbrev pub GroupOf : List EventJson → Text → EventGroup → Type 0
  GroupOf events k g =
      (ev : EventJson) × (evs : List EventJson) × (retain (has_key d k) events ≡ ev ∷ evs)
      × (g ≡ group_of k ev evs)

  retain-head :
      (k : Text) (events : List EventJson) (ev : EventJson) (evs : List EventJson)
      → retain (has_key d k) events ≡ ev ∷ evs
      → key_of d ev ≡ k
  unfolding retain
  retain-head k [] ev evs h = absurd (cc h)
  retain-head k (e ∷ es) ev evs h =
      ground (arith, list_eq.same_iff (key_of d e) k, retain-head k es ev evs)

  opened :
      (ev : EventJson) (evs : List EventJson)
      → some (joined_all (open_group d ev) evs) ≡ some (group_of (key_of d ev) ev evs)
  unfolding open_group
  opened ev evs = regroup (open_group d ev) (latest ev.at_micros evs) (omega arith) refl

  grown-GroupOf :
      (k : Text) (events : List EventJson) (g : EventGroup)
      → grown d none (retain (has_key d k) events) ≡ some g
      → GroupOf events k g
  unfolding grown
  grown-GroupOf k events g h = elim (List-cases (retain (has_key d k) events)) [
    | inl gone ↦ absurd (cc (h, ap (grown d none) gone))
    | inr (ev, evs, kept) ↦ (
      ev,
      evs,
      kept,
      (cc (
          sym h
          ∙ ap (grown d none) kept
          ∙ grown_lem (open_group d ev) evs
          ∙ opened ev evs
          ∙ ap (λ j. some (group_of j ev evs)) (retain-head k events ev evs kept))),
    )
  ]

  -- `group_events` returns one group for each fingerprint that occurs among the events, in the
  -- order in which the fingerprints first occur: a group's sample, type and first time are those
  -- of its first event, its ids are those of the fingerprint's events in their order, its count
  -- is their number, and its last time is the latest of their times.
  pub group_events_lem :
      (events : List EventJson)
      → Each (GroupOf events) (first_seen d [] events) (group_events d events)
  unfolding group_events get
  group_events_lem events =
      let acc = add_events d events ([], []) in
      let agree = Agree-add_events d events ([], []) (λ k. refl) in
      subst (λ order. Each (GroupOf events) order (take_groups d acc.0 acc.1))
        (order-add_events d events ([], []) (λ k. refl))
        (take_groups-Each (GroupOf events) acc.0 acc.1
          (subst (Distinct d) (sym (order-add_events d events ([], []) (λ k. refl)))
            (first_seen-Distinct d events [] tt))
          (λ k c. elim (Option-cases (get acc.1 k)) [
            | inl gone ↦ absurd (cc (agree k, ap (is_known d) gone, c))
            | inr (g, known) ↦ (
              g,
              known,
              grown-GroupOf k events g (sym (get-add_events d k events ([], [])) ∙ known),
            )
          ]))
