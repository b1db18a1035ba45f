-- ===== src/Grouping/Tests.antt =====
-- daemon/src/grouping.rs: the theorem at three events of two fingerprints, with a digest that
-- keeps the text that it is given.
use php_periscope.Common.{ℕ, none, List, [], ◌∷◌}
use php_periscope.Common.Text.{Text, codes}
use php_periscope.Json.{null}
use php_periscope.Trace.{EventJson}
use php_periscope.Grouping.{Digest, group_events}
use php_periscope.Grouping.Groups.{Each, GroupOf, first_seen, group_events_lem}

abbrev kept : Digest
kept = record { to_json = λ v. []; hex_digest = λ s. s }

abbrev happened : ℕ → ℕ → Text → EventJson
happened id at tag = record {
  id = id;
  at_micros = at;
  in_frame_id = 1;
  type_tag = tag;
  payload = null;
  user_call_site = none;
}

abbrev three : List EventJson
three = happened 1 10 (codes "sql") ∷ happened 2 20 (codes "log") ∷ happened 3 30 (codes "sql") ∷ []

group_events_lem_example :
    Each (GroupOf kept three) (first_seen kept [] three) (group_events kept three)
group_events_lem_example = group_events_lem kept three
