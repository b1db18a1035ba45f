-- ===== src/Filter/Tests.antt =====
-- daemon/src/event_filter.rs: the theorems at small filters, with ASCII for the Unicode tables.
use php_periscope.Common.{none, [], ◌∷◌, true, arith, ◌≡◌, refl, leb, ◌&&◌, nat_beq}
use php_periscope.Common.Text.{codes}
use php_periscope.Common.Results.{ok, collect}
use php_periscope.Json.{Value, string, object, field, end}
use php_periscope.Filter.{
  TextOps, Filter, path, exact, parse, is_blank, split_top_level_and, split_loop, is_separator,
  trim, trim_start, parse_parts, parse_clause, find_colon, parse_path, split_dots, parse_segment,
  all_chars, is_ident, parse_literal, between_quotes, but_last,
}
use php_periscope.Filter.Split.{split_top_level_and_lem, is_refused, split_top_level_and_refuses}
use php_periscope.Filter.Written.{Question}

abbrev ascii : TextOps
ascii = record {
  is_whitespace = is_blank;
  is_alphanumeric = λ c. leb b'a' c && leb c b'z';
  to_lowercase = λ s. s;
  to_json = λ v. [];
  as_f64 = λ n. none;
  parse_f64 = λ s. none;
  close_to = nat_beq;
}

split_top_level_and_lem_example :
    split_top_level_and (codes "level:error AND message:\"x AND y\"")
    ≡ ok (codes "level:error" ∷ codes "message:\"x AND y\"" ∷ [])
unfolding is_blank
split_top_level_and_lem_example =
    split_top_level_and_lem (codes "level:error") (codes "message:\"x AND y\"" ∷ []) (ground arith)
      (ground arith)

split_top_level_and_refuses_example : is_refused (split_top_level_and (codes "a:\"b")) ≡ true
split_top_level_and_refuses_example = split_top_level_and_refuses (codes "a:\"b")

abbrev level_asked : Question
level_asked = record { head = codes "level"; tail = []; want = codes "error" }

abbrev message_asked : Question
message_asked = record {
  head = codes "payload";
  tail = codes "message" ∷ [];
  want = codes "x AND y";
}

abbrev failure : Value
failure = object (
    field (codes "level") (string (codes "error")) (
      field (codes "payload") (object (field (codes "message") (string (codes "x AND y")) end))
        end))

abbrev by_level : Filter
by_level = record { clauses = path (codes "level" ∷ []) (exact (codes "error")) ∷ [] }

-- The text of a filter is read as its clause.
parse_by_level : parse ascii (codes " level:\"error\" ") ≡ ok by_level
unfolding parse trim trim_start is_blank split_top_level_and split_loop is_separator parse_parts
    parse_clause find_colon parse_path collect split_dots parse_segment all_chars is_ident
    parse_literal between_quotes but_last
parse_by_level = refl
