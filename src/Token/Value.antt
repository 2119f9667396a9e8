-- ===== src/Token/Value.antt =====
-- `serde_json::Value`, as much as the source reads of it. A number is its reading by `as_u64`.
use himmelcloak.Prelude.{ℕ, Text, text_eq, List, [], ◌∷◌, Option, none, some, Bool, if◌then◌else◌}

mutual
  pub data Value : Type 0 where
    null : Value
    boolean : Bool → Value
    number : Option ℕ → Value
    string : Text → Value
    array : Values → Value
    object : Members → Value

  pub data Values : Type 0 where
    no_item : Values
    item : Value → Values → Values

  pub data Members : Type 0 where
    no_member : Members
    member : Text → Value → Members → Members

unfoldable pub lookup : Members → Text → Option Value
lookup no_member name = none
lookup (member key value more) name =
    let rest = lookup more name in if text_eq key name then some value else rest

-- `Value::get` by name
unfoldable pub field : Value → Text → Option Value
unfolding lookup
field (object members) name = lookup members name
field _ name = none

-- `Value::as_str`
unfoldable pub as_str : Value → Option Text
as_str (string s) = some s
as_str _ = none

-- `Value::as_u64`
unfoldable pub as_u64 : Value → Option ℕ
as_u64 (number n) = n
as_u64 _ = none

unfoldable pub items : Values → List Value
items no_item = []
items (item v vs) = v ∷ items vs

-- `Value::as_array`
unfoldable pub as_array : Value → Option (List Value)
as_array (array vs) = some (items vs)
as_array _ = none

-- A field read as a string.
unfoldable pub text_field : Value → Text → Option Text
text_field v name = elim (field v name) [ none ↦ none | some f ↦ as_str f ]

-- A field read as a number.
unfoldable pub number_field : Value → Text → Option ℕ
number_field v name = elim (field v name) [ none ↦ none | some f ↦ as_u64 f ]

-- A field read as an array.
unfoldable pub array_field : Value → Text → Option (List Value)
array_field v name = elim (field v name) [ none ↦ none | some f ↦ as_array f ]
