-- ===== src/Postman/Value.antt =====
-- serde_json's `Value`, whose objects are maps in the order of their keys, and the crate's texts of
-- values, as parameters.
use Prim.Native.String.{compare}
use Prim.Native.Nat.{Ordering}
use rust_microservices_archi.Prelude.{
  String, Bool, Option, none, some, List, [], ◌∷◌, ◌==◌, if◌then◌else◌,
}

mutual
  pub data Value : Type 0 where
    null : Value
    bool : Bool → Value
    number : (text : String) → Value
    string : String → Value
    array : Values → Value
    object : Members → Value

  pub data Values : Type 0 where
    nil : Values
    cons : Value → Values → Values

  pub data Members : Type 0 where
    end : Members
    member : String → Value → Members → Members

-- `map.insert(key, value)`.
unfoldable pub insert : String → Value → Members → Members
insert k v end = member k v end
insert k v (member j w ms) =
    let rest = insert k v ms in
    elim (compare k j) [
      | Ordering.lt ↦ member k v (member j w ms)
      | Ordering.eq ↦ member k v ms
      | Ordering.gt ↦ member j w rest
    ]

abbrev pub lookup : String → Members → Option Value
lookup k end = none
lookup k (member j v ms) = if j == k then some v else lookup k ms

-- `value.get(key)`, `as_object` and `as_str`.
abbrev pub get : String → Value → Option Value
get k (object ms) = lookup k ms
get k _ = none

abbrev pub as_object : Value → Option Members
as_object (object ms) = some ms
as_object _ = none

abbrev pub as_str : Value → Option String
as_str (string s) = some s
as_str _ = none

-- `json!({…})`, from its fields in the order in which they are written.
abbrev pub insert_all : List (String × Value) → Members → Members
insert_all [] ms = ms
insert_all ((k, v) ∷ rest) ms = insert_all rest (insert k v ms)

abbrev pub json_object : List (String × Value) → Value
json_object fields = object (insert_all fields end)

abbrev pub json_array : List Value → Values
json_array [] = nil
json_array (v ∷ vs) = cons v (json_array vs)

-- What the generator calls of serde_json.
pub record External : Type 0 where
  -- `to_string`, `to_string_pretty` and `from_str`
  pub to_string : Value → String
  pub to_string_pretty : Value → String
  pub from_str : String → Option Value
