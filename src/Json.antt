-- ===== src/Json.antt =====
-- `serde_json::Value` as the daemon reads it, and the accessors that it calls (`get`, `as_str`,
-- `as_u64`, `as_array`, `as_object`). An object is the list of its members in the order in which
-- `serde_json` keeps them; a float is its 64-bit pattern, and what the code computes with floats
-- is a parameter of the modules that do so.
use php_periscope.Common.{
  ℕ, Option, none, some, List, [], ◌∷◌, if◌then◌else◌, Bool, ◌==◌, list_eq, and_then,
}
use php_periscope.Common.Text.{Text}

abbrev pub Float : Type 0
Float = ℕ

-- `neg_int n` is -(n + 1).
pub data Number : Type 0 where
  pos_int : ℕ → Number
  neg_int : ℕ → Number
  float : Float → Number

mutual
  pub data Value : Type 0 where
    null : Value
    bool : Bool → Value
    number : Number → Value
    string : Text → Value
    array : Items → Value
    object : Fields → Value

  pub data Items : Type 0 where
    nil : Items
    cons : Value → Items → Items

  pub data Fields : Type 0 where
    end : Fields
    field : Text → Value → Fields → Fields

-- `Map::get`
unfoldable pub fields_get : Fields → Text → Option Value
fields_get end k = none
fields_get (field j v fs) k = if j == k then some v else fields_get fs k

-- `Value::get` with a text key: nothing for what is no object.
unfoldable pub value_get : Value → Text → Option Value
unfolding fields_get
value_get (object fs) k = fields_get fs k
value_get _ k = none

unfoldable pub as_str : Value → Option Text
as_str (string s) = some s
as_str _ = none

unfoldable pub as_u64 : Value → Option ℕ
as_u64 (number (pos_int n)) = some n
as_u64 _ = none

unfoldable pub list_of_items : Items → List Value
list_of_items nil = []
list_of_items (cons v vs) = v ∷ list_of_items vs

unfoldable pub as_array : Value → Option (List Value)
unfolding list_of_items
as_array (array vs) = some (list_of_items vs)
as_array _ = none

-- `as_object`, its members in their order.
unfoldable pub list_of_fields : Fields → List (Text × Value)
list_of_fields end = []
list_of_fields (field k v fs) = (k, v) ∷ list_of_fields fs

unfoldable pub as_object : Value → Option (List (Text × Value))
unfolding list_of_fields
as_object (object fs) = some (list_of_fields fs)
as_object _ = none

-- `payload.get(k).and_then(|v| v.as_str())` and the like.
unfoldable pub get_str : Value → Text → Option Text
get_str v k = and_then (value_get v k) as_str

unfoldable pub get_u64 : Value → Text → Option ℕ
get_u64 v k = and_then (value_get v k) as_u64

-- What the code does with the `f64` of a payload.
pub record Floats : Type 0 where
  pub as_f64 : Number → Float
  pub add : Float → Float → Float
  pub at_least : Float → Float → Bool

module _ (floats : Floats) where
  unfoldable pub value_as_f64 : Value → Option Float
  value_as_f64 (number n) = some (floats.as_f64 n)
  value_as_f64 _ = none

  unfoldable pub get_f64 : Value → Text → Option Float
  get_f64 v k = and_then (value_get v k) value_as_f64
