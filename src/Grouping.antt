-- ===== src/Grouping.antt =====
-- daemon/src/grouping.rs: events collapsed by the fingerprint of their type and canonical
-- payload. The digest of `sha2` and the printer of `serde_json` are parameters: `fingerprint`
-- stands for the hex digits of the first eight bytes of the digest of the bytes it is given.
pub mod Groups
mod Tests
use php_periscope.Common.{
  ℕ, suc, ◌+◌, max, Option, none, some, List, [], ◌∷◌, ◌++◌, Bool, true, false, ◌||◌, if◌then◌else◌,
  ◌==◌, nat_beq, leb, list_eq, length, and_then,
}
use php_periscope.Common.Text.{Text, codes}
use php_periscope.Common.Maps.{Map, get, insert, remove}
use php_periscope.Json.{Value, Items, Fields, array, object, nil, cons, end, field}
use php_periscope.Trace.{EventJson}

abbrev pub text_mem : Text → List Text → Bool
text_mem s [] = false
text_mem s (t ∷ ts) = t == s || text_mem s ts

abbrev pub timing_keys : List Text
timing_keys =
    codes "at"
    ∷ codes "at_micros"
    ∷ codes "at_unix_micros"
    ∷ codes "duration_micros"
    ∷ codes "duration_ms"
    ∷ codes "elapsed_ms"
    ∷ codes "ended_at"
    ∷ codes "enter_micros"
    ∷ codes "exit_micros"
    ∷ codes "fired_at"
    ∷ codes "started_at"
    ∷ codes "time"
    ∷ codes "time_ms"
    ∷ codes "timestamp"
    ∷ []

-- `String`'s order: by code points, which is the order of the UTF-8 bytes.
unfoldable pub text_le : Text → Text → Bool
text_le [] t = true
text_le (a ∷ s) [] = false
text_le (a ∷ s) (b ∷ t) = if nat_beq a b then text_le s t else leb a b

-- A field put before the first that has a greater key: the sort by keys and the insertions into
-- the new map in one pass. The keys of a map are distinct.
unfoldable pub put_field : Text → Value → Fields → Fields
put_field k v end = field k v end
put_field k v (field j w fs) =
    let later = field j w (put_field k v fs) in
    if text_le k j then field k v (field j w fs) else later

unfoldable mutual
  pub canonicalise : Value → Value
  canonicalise (object fs) = object (canonical_fields fs)
  canonicalise (array vs) = array (canonical_items vs)
  canonicalise other = other

  pub canonical_items : Items → Items
  canonical_items nil = nil
  canonical_items (cons v vs) = cons (canonicalise v) (canonical_items vs)

  pub canonical_fields : Fields → Fields
  canonical_fields end = end
  canonical_fields (field k v fs) =
      if text_mem k timing_keys
      then canonical_fields fs
      else put_field k (canonicalise v) (canonical_fields fs)

pub record EventGroup : Type 0 where
  pub fingerprint : Text
  pub type_tag : Text
  pub count : ℕ
  pub first_at_micros : ℕ
  pub last_at_micros : ℕ
  pub sample : EventJson
  pub event_ids : List ℕ

-- What `grouping.rs` takes from other crates.
pub record Digest : Type 0 where
  pub to_json : Value → Text
  pub hex_digest : Text → Text

module _ (d : Digest) where
  unfoldable pub fingerprint_for : Text → Value → Text
  fingerprint_for type_tag payload =
      d.hex_digest (type_tag ++ 0x1f ∷ d.to_json (canonicalise payload))

  abbrev pub key_of : EventJson → Text
  key_of ev = fingerprint_for ev.type_tag ev.payload

  -- The group that an event opens, and the group with one more event.
  unfoldable pub open_group : EventJson → EventGroup
  open_group ev = record {
    fingerprint = key_of ev;
    type_tag = ev.type_tag;
    count = 1;
    first_at_micros = ev.at_micros;
    last_at_micros = ev.at_micros;
    sample = ev;
    event_ids = ev.id ∷ [];
  }

  unfoldable pub join_group : EventGroup → EventJson → EventGroup
  join_group g ev = record g {
    count = g.count + 1;
    last_at_micros = max ev.at_micros g.last_at_micros;
    event_ids = g.event_ids ++ ev.id ∷ [];
  }

  -- One round of the loop, on the order of the keys and the groups.
  unfoldable pub add_event :
      EventJson → List Text × Map Text EventGroup → List Text × Map Text EventGroup
  add_event ev (order, groups) = elim (get groups (key_of ev)) [
    | some g ↦ (order, insert (key_of ev) (join_group g ev) groups)
    | none ↦ (order ++ key_of ev ∷ [], insert (key_of ev) (open_group ev) groups)
  ]

  unfoldable pub add_events :
      List EventJson → List Text × Map Text EventGroup → List Text × Map Text EventGroup
  add_events [] acc = acc
  add_events (ev ∷ evs) acc = add_events evs (add_event ev acc)

  -- `order.into_iter().filter_map(|k| groups.remove(&k)).collect()`
  unfoldable pub take_groups : List Text → Map Text EventGroup → List EventGroup
  take_groups [] groups = []
  take_groups (k ∷ order) groups =
      let rest = take_groups order (remove k groups) in
      elim (get groups k) [ none ↦ rest | some g ↦ g ∷ rest ]

  unfoldable pub group_events : List EventJson → List EventGroup
  group_events events = let acc = add_events events ([], []) in take_groups acc.0 acc.1
