-- ===== src/Commerce/Registry.antt =====
-- backend/apps/commerce/configuration.py: the registry of products.
pub mod Scope
use text.Mathlib.Text.{◌==◌ as str_eq, starts_with}
use shortform_streaming.Prelude.{
  ℕ, suc, String, Bool, true, false, not, ◌&&◌, ◌||◌, Option, none, some, List, [], ◌∷◌, reverse,
  if◌then◌else◌, any, all, find, length, leb, ltb, ◌==◌, contains, is_alphanumeric, is_digit,
  is_lower, is_upper, matches_class, all_chars, starts_and_goes_on, split_on,
}
use shortform_streaming.Prelude.Options.{◌>>=◌, ◌>>◌, require}
use shortform_streaming.Model.{PurchaseMode}
use shortform_streaming.Model.JsonValues.{
  Json, Items, Fields, Body, lookup, keys, as_list, as_text, as_natural, as_object, empty_list,
  item, json_bool, admits,
}

-- `parse_registry`; `none` is ImproperlyConfigured.
unfoldable pub parse_registry : Body → Option Json
parse_registry raw =
    if ltb 32768 raw.size
    then none
    else elim raw.value [ none ↦ none | some v ↦ if admits true v then some v else none ]

-- The dataclass `Product`, with its texts.
pub record RegisteredProduct : Type 0 where
  pub app_id : String
  pub application_id : String
  pub product_id : String
  pub coins : ℕ
  pub approval_reference : String
  pub store : String
  pub environment : String
  pub price_source : String
  pub finance_owner_role : String
  pub product_type : String

abbrev expected_fields : List String
expected_fields =
    "app_id" ∷ "application_id" ∷ "product_id" ∷ "coins" ∷ "approval_reference" ∷ "store"
    ∷ "environment" ∷ "price_source" ∷ "finance_owner_role" ∷ "synthetic" ∷ "product_type" ∷ []

-- `set(row) == expected`
abbrev has_expected_fields : Fields → Bool
has_expected_fields row =
    all (λ k. contains k expected_fields) (keys row)
    && all (λ k. contains k (keys row)) expected_fields

-- `row["synthetic"] is (mode == "test")`
abbrev is_json_bool : Bool → Option Json → Bool
is_json_bool true (some (json_bool b)) = b
is_json_bool false (some (json_bool b)) = not b
is_json_bool _ _ = false

-- The fields of the row and the mode agree with the registry's.
abbrev pub fits : Bool → Fields → Bool
fits test row = has_expected_fields row && is_json_bool test (lookup "synthetic" row)

-- The fields of a row, where each has its type.
unfoldable pub read_row : Fields → Option RegisteredProduct
read_row row = do
  app_id ← as_text (lookup "app_id" row)
  application_id ← as_text (lookup "application_id" row)
  product_id ← as_text (lookup "product_id" row)
  coins ← as_natural (lookup "coins" row)
  approval_reference ← as_text (lookup "approval_reference" row)
  store ← as_text (lookup "store" row)
  environment ← as_text (lookup "environment" row)
  price_source ← as_text (lookup "price_source" row)
  finance_owner_role ← as_text (lookup "finance_owner_role" row)
  product_type ← as_text (lookup "product_type" row)
  some (record {
    app_id = app_id;
    application_id = application_id;
    product_id = product_id;
    coins = coins;
    approval_reference = approval_reference;
    store = store;
    environment = environment;
    price_source = price_source;
    finance_owner_role = finance_owner_role;
    product_type = product_type;
  })

-- `[A-Za-z0-9_.:/-]`
abbrev is_identifier_char : ℕ → Bool
is_identifier_char c = is_alphanumeric c || c == 95 || c == 46 || c == 58 || c == 47 || c == 45

unfoldable pub is_identifier : String → Bool
is_identifier s = matches_class is_identifier_char 1 128 s

abbrev is_word_char : ℕ → Bool
is_word_char c = is_alphanumeric c || c == 95

-- `[A-Za-z][A-Za-z0-9_]*`
abbrev is_package_part : String → Bool
is_package_part s = starts_and_goes_on (λ c. is_lower c || is_upper c) is_word_char s

-- Two parts or more between dots.
unfoldable pub is_package_name : String → Bool
is_package_name s = leb 2 (length (split_on 46 s)) && all is_package_part (split_on 46 s)

-- `app[A-Za-z0-9_-]+`
unfoldable pub is_app_id : String → Bool
is_app_id (String.◌∷◌ a (String.◌∷◌ p (String.◌∷◌ q s))) =
    str_eq (String.◌∷◌ a (String.◌∷◌ p (String.◌∷◌ q String.[]))) "app"
    && starts_and_goes_on (λ c. is_word_char c || c == 45) (λ c. is_word_char c || c == 45) s
is_app_id _ = false

-- `[a-z][a-z0-9_.]*`
unfoldable pub is_store_product : String → Bool
is_store_product s =
    starts_and_goes_on is_lower (λ c. is_lower c || is_digit c || c == 95 || c == 46) s

unfoldable pub approved_scope : Bool → RegisteredProduct → Bool
unfolding is_package_name is_app_id is_store_product
approved_scope test p =
    if test
    then starts_with p.app_id "synthetic_"
      && starts_with p.product_id "synthetic_"
      && starts_with p.application_id "test.synthetic."
      && starts_with p.approval_reference "synthetic:"
    else is_app_id p.app_id
      && is_package_name p.application_id
      && is_store_product p.product_id
      && str_eq p.approval_reference "D-036"

-- The checks of one row on its own.
unfoldable pub accepts_product : Bool → RegisteredProduct → Bool
unfolding is_identifier approved_scope
accepts_product test p =
    is_identifier p.app_id
    && is_identifier p.product_id
    && is_identifier p.application_id
    && is_identifier p.approval_reference
    && approved_scope test p
    && str_eq p.store "PLAY_STORE"
    && str_eq p.environment "SANDBOX"
    && str_eq p.price_source "store"
    && str_eq p.finance_owner_role "finance"
    && str_eq p.product_type "consumable"
    && leb 1 p.coins
    && leb p.coins 2147483647

abbrev pub checked : Bool → RegisteredProduct → Option RegisteredProduct
checked test p = do require (accepts_product test p); some p

unfoldable pub load_row : Bool → Json → Option RegisteredProduct
unfolding read_row accepts_product
load_row test value = do
  row ← as_object value
  require (fits test row)
  p ← read_row row
  checked test p

-- `app_bindings`: the application of each app.
pub record AppBinding : Type 0 where
  pub app_id : String
  pub application_id : String

-- What the loop has so far: `products` newest first; `seen` is the keys of those.
pub record Loaded : Type 0 where
  pub products : List RegisteredProduct
  pub app_bindings : List AppBinding

abbrev pub is_seen : RegisteredProduct → List RegisteredProduct → Bool
is_seen p seen = any (λ q. str_eq q.app_id p.app_id && str_eq q.product_id p.product_id) seen

-- `app_bindings.get(app_id)`
abbrev pub binding_of : String → List AppBinding → Option AppBinding
binding_of app_id bindings = find (λ b. str_eq b.app_id app_id) bindings

abbrev pub bound_otherwise : RegisteredProduct → List AppBinding → Bool
bound_otherwise p bindings = elim (binding_of p.app_id bindings) [
  | none ↦ false
  | some b ↦ not (str_eq b.application_id p.application_id)
]

abbrev pub taken_by_another : RegisteredProduct → List AppBinding → Bool
taken_by_another p bindings =
    any (λ b. not (str_eq b.app_id p.app_id) && str_eq b.application_id p.application_id) bindings

-- A row joins the registry, unless its scope is not unique.
unfoldable pub add_product : RegisteredProduct → Loaded → Option Loaded
add_product p l =
    if is_seen p l.products || bound_otherwise p l.app_bindings || taken_by_another p l.app_bindings
    then none
    else some (record {
      products = p ∷ l.products;
      app_bindings =
          record { app_id = p.app_id; application_id = p.application_id } ∷ l.app_bindings;
    })

unfoldable pub load_rows : Bool → Items → Loaded → Option Loaded
unfolding load_row add_product
load_rows test empty_list l = some l
load_rows test (item row rows) l = do
  p ← load_row test row
  next ← add_product p l
  load_rows test rows next

abbrev count_items : Items → ℕ
count_items empty_list = 0
count_items (item x xs) = let n = count_items xs in suc n

-- `1 <= len(value) <= 32`
abbrev pub is_bounded : Items → Bool
is_bounded rows = leb 1 (count_items rows) && leb (count_items rows) 32

abbrev pub registry_mode : PurchaseMode → Option Bool
registry_mode PurchaseMode.test = some true
registry_mode PurchaseMode.revenuecat_sandbox = some false
registry_mode _ = none

-- `load_products`; the tuple lists the rows in their order.
unfoldable pub load_products : PurchaseMode → Json → Option (List RegisteredProduct)
unfolding load_rows
load_products mode value = do
  test ← registry_mode mode
  rows ← as_list value
  require (is_bounded rows)
  l ← load_rows test rows (record { products = []; app_bindings = [] })
  some (reverse l.products)
