-- ===== src/Filter/Match.antt =====
-- daemon/src/event_filter.rs: what a filter of quoted clauses asks of an event, from its text to
-- `Filter::matches`.
use php_periscope.Common.{some, List, [], ◌∷◌, ◌++◌, ◌≡◌}
use php_periscope.Common.Text.{Text}
use php_periscope.Json.{Value}
use php_periscope.Filter.{TextOps, Clause, path, exact, Filter, quote, lookup, value_to_string}
use php_periscope.Filter.Written.{Question}

abbrev pub clause_of : Question → Clause
clause_of q = path (q.head ∷ q.tail) (exact q.want)

-- The text ends with a quote.
abbrev Ends : Text → Type 0
Ends s = (body : Text) × (s ≡ body ++ quote ∷ [])

module _ (ops : TextOps) where
  -- The event has a value at the path, and the value's text is the one that is asked for.
  abbrev pub Holds : Value → Question → Type 0
  Holds event q =
      (v : Value) × (lookup event (q.head ∷ q.tail) ≡ some v) × (value_to_string ops v ≡ q.want)
