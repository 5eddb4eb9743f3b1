-- ===== src/Json.antt =====
-- JSON documents as Python loads them, with whole numbers only: the loaders refuse a duplicate key,
-- so an object is its entries in the order of the text. Field access, Python's `==`, and the strings
-- that bundle_validation.py reads from a manifest.
use llm_arbitrage_system.Base.{ℕ, suc, String, Bool, true, false, ◌&&◌, Option, none, some, str_eq}
use llm_arbitrage_system.Base.Tests.{◌==◌, if◌then◌else◌}
use llm_arbitrage_system.Base.Int.{ℤ, pos, negsuc}

mutual
  pub data Json : Type 0 where
    null : Json
    bool : Bool → Json
    int : ℤ → Json
    string : String → Json
    array : Items → Json
    object : Fields → Json

  pub data Items : Type 0 where
    nil : Items
    item : Json → Items → Items

  pub data Fields : Type 0 where
    end : Fields
    field : String → Json → Fields → Fields

-- `payload.get(key)`, `none` for None where the key is missing
abbrev pub get_field : String → Fields → Option Json
get_field key end = none
get_field key (field k v rest) = if str_eq k key then some v else get_field key rest

abbrev pub field_count : Fields → ℕ
field_count end = 0
field_count (field k v rest) = suc (field_count rest)

abbrev pub same_int : ℤ → ℤ → Bool
same_int (pos a) (pos b) = a == b
same_int (negsuc a) (negsuc b) = a == b
same_int _ _ = false

-- Python's integer of a Boolean
abbrev pub int_of_bool : Bool → ℤ
int_of_bool true = pos 1
int_of_bool false = pos 0

-- Python's `==`: a Boolean is equal to its integer, and dictionaries compare without their order.
unfoldable mutual
  pub same : Json → Json → Bool
  same null null = true
  same (bool a) (bool b) = same_int (int_of_bool a) (int_of_bool b)
  same (bool a) (int b) = same_int (int_of_bool a) b
  same (int a) (bool b) = same_int a (int_of_bool b)
  same (int a) (int b) = same_int a b
  same (string a) (string b) = str_eq a b
  same (array a) (array b) = same_items a b
  same (object a) (object b) = field_count a == field_count b && same_fields a b
  same _ _ = false

  pub same_items : Items → Items → Bool
  same_items nil nil = true
  same_items (item a as_) (item b bs) = same a b && same_items as_ bs
  same_items _ _ = false

  pub same_fields : Fields → Fields → Bool
  same_fields end others = true
  same_fields (field k v rest) others =
      elim (get_field k others) [ none ↦ false | some w ↦ same v w ] && same_fields rest others

-- `isinstance(value, str) and value`
abbrev pub nonempty : Option Json → Option String
nonempty (some (string value)) = if str_eq value "" then none else some value
nonempty _ = none

-- `required_string`, `none` where it raises
abbrev pub required_string : Fields → String → Option String
required_string payload key = nonempty (get_field key payload)

abbrev pub fields_of : Option Json → Option Fields
fields_of (some (object payload)) = some payload
fields_of _ = none

-- `nested_string`, `none` where it raises
abbrev pub nested_string : Fields → String → String → Option String
nested_string payload section key = elim (fields_of (get_field section payload)) [
  | some nested ↦ nonempty (get_field key nested)
  | none ↦ none
]

-- `canonical_json_bytes` and `sha256_hex`, on texts
pub record Canonical : Type 0 where
  pub canonical_json : Json → String
  pub sha256_hex : String → String
