-- ===== src/Model/JsonValues.antt =====
-- The values that `json.loads` gives, and how they are read.
use text.Mathlib.Text.{◌==◌ as str_eq}
use shortform_streaming.Prelude.{
  ℕ, String, Bool, true, false, not, ◌&&◌, ◌||◌, Option, none, some, List, [], ◌∷◌, if◌then◌else◌,
}
use shortform_streaming.Prelude.Int.{ℤ, pos}

-- A number that is no `int` is `json_float`; `json_constant` is NaN or an infinity. An object lists
-- its pairs in their order.
mutual
  pub data Json : Type 0 where
    json_null : Json
    json_bool : Bool → Json
    json_int : ℤ → Json
    json_float : Json
    json_constant : Json
    json_text : String → Json
    json_list : Items → Json
    json_object : Fields → Json

  pub data Items : Type 0 where
    empty_list : Items
    item : Json → Items → Items

  pub data Fields : Type 0 where
    empty_object : Fields
    field : String → Json → Fields → Fields

-- A text in bytes or characters: their number, and what `json.loads` makes of it without the hooks,
-- `none` where it raises.
pub record Body : Type 0 where
  pub size : ℕ
  pub value : Option Json

-- `fields.get(name)`: `none` for a key that is missing.
abbrev pub lookup : String → Fields → Option Json
lookup name empty_object = none
lookup name (field key v rest) = if str_eq key name then some v else lookup name rest

abbrev pub has_key : String → Fields → Bool
has_key name empty_object = false
has_key name (field key v rest) = str_eq key name || has_key name rest

abbrev pub keys : Fields → List String
keys empty_object = []
keys (field key v rest) = key ∷ keys rest

-- The hook `_unique` at one object: no key stands twice.
abbrev pub unique_keys : Fields → Bool
unique_keys empty_object = true
unique_keys (field key v rest) = not (has_key key rest) && unique_keys rest

-- The hook `object_pairs_hook` over a whole value, and `parse_constant` unless `constants` are left.
unfoldable mutual
  pub admits : Bool → Json → Bool
  admits constants (json_list xs) = admits_items constants xs
  admits constants (json_object fs) = unique_keys fs && admits_fields constants fs
  admits constants json_constant = constants
  admits constants _ = true

  pub admits_items : Bool → Items → Bool
  admits_items constants empty_list = true
  admits_items constants (item x xs) = admits constants x && admits_items constants xs

  pub admits_fields : Bool → Fields → Bool
  admits_fields constants empty_object = true
  admits_fields constants (field key v rest) = admits constants v && admits_fields constants rest

abbrev pub as_object : Json → Option Fields
as_object (json_object fs) = some fs
as_object _ = none

abbrev pub as_list : Json → Option Items
as_list (json_list xs) = some xs
as_list _ = none

-- `isinstance(value, str)`
abbrev pub as_text : Option Json → Option String
as_text (some (json_text s)) = some s
as_text _ = none

-- `type(value) is int`, where it is not negative.
abbrev pub as_natural : Option Json → Option ℕ
as_natural (some (json_int (pos n))) = some n
as_natural _ = none

-- `value == text`
abbrev pub is_text : String → Option Json → Bool
is_text t (some (json_text s)) = str_eq s t
is_text t _ = false

abbrev pub is_null : Option Json → Bool
is_null none = true
is_null (some json_null) = true
is_null _ = false

abbrev pub objects : Items → Option (List Fields)
objects empty_list = some []
objects (item x xs) = elim (as_object x) [
  | none ↦ none
  | some fs ↦ elim (objects xs) [ none ↦ none | some rest ↦ some (fs ∷ rest) ]
]
