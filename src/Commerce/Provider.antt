-- ===== src/Commerce/Provider.antt =====
-- backend/apps/commerce/revenuecat.py: the purchases that the provider reports. An exception and an
-- unresolved fact are the same answer, `none`.
pub mod Verified
use Prim.Native.Char.{code}
use Prim.Native.String.{◌++◌ as ◌<>◌}
use text.Mathlib.Text.{◌==◌ as str_eq}
use shortform_streaming.Prelude.{
  ℕ, ◌+◌, String, Bool, true, false, not, ◌&&◌, ◌||◌, Option, none, some, List, [], ◌∷◌,
  if◌then◌else◌, select, length, leb, ltb, ◌==◌, is_some, any, is_space, is_alphanumeric, is_upper,
  is_digit, matches_class, all_chars, any_char,
}
use shortform_streaming.Prelude.Int.{pos}
use shortform_streaming.Prelude.Options.{◌>>=◌, ◌>>◌, require}
use shortform_streaming.Model.{Event, SettingValue}
use shortform_streaming.Model.JsonValues.{
  Json, Fields, Body, lookup, has_key, as_object, as_list, as_text, as_natural, is_text, is_null,
  objects, empty_list, json_null, json_bool, json_int, json_list, json_object, json_text,
  empty_object, field, admits,
}
use shortform_streaming.Commerce.Registry.{RegisteredProduct}
use shortform_streaming.Commerce.Callbacks.{
  Codec, normalize, is_callback_char, max_milliseconds, quantity_is_one,
}

-- An answer over HTTPS; a missing header is the empty text.
pub record Response : Type 0 where
  pub status : ℕ
  pub content_type : String
  pub body : Body

-- `get` is one GET of `path` with the key, `none` where the connection fails. `urlencode` is that
-- of one name and value.
pub record Provider : Type 0 where
  pub codec : Codec
  pub open codec use *
  pub project_id : SettingValue
  pub api_key : SettingValue
  pub get : String → String → Option Response
  pub urlencode : String → String → String

abbrev pub max_response_bytes : ℕ
max_response_bytes = 131072

-- The codes of a text up to its first `;`.
abbrev before_semicolon : String → List ℕ
before_semicolon String.[] = []
before_semicolon (String.◌∷◌ c s) =
    let rest = before_semicolon s in if code c == 59 then [] else code c ∷ rest

abbrev strip_left : List ℕ → List ℕ
strip_left [] = []
strip_left (c ∷ cs) = let rest = strip_left cs in if is_space c then rest else c ∷ cs

abbrev strip_right : List ℕ → List ℕ
strip_right [] = []
strip_right (c ∷ cs) =
    let rest = strip_right cs in
    elim rest [ [] ↦ if is_space c then [] else c ∷ [] | ◌∷◌ d ds ↦ c ∷ d ∷ ds ]

abbrev lower_code : ℕ → ℕ
lower_code c = if is_upper c then c + 32 else c

-- The codes `cs`, in lower case, are those of `s`. No letter beyond ASCII has one of these as its
-- lower case.
abbrev is_lowered : String → List ℕ → Bool
is_lowered String.[] [] = true
is_lowered (String.◌∷◌ c s) (d ∷ ds) = code c == lower_code d && is_lowered s ds
is_lowered _ _ = false

unfoldable pub is_json_type : String → Bool
is_json_type header =
    is_lowered "application/json" (strip_right (strip_left (before_semicolon header)))

unfoldable pub response_object : Response → Option Fields
unfolding is_json_type
response_object response = do
  require (response.status == 200 && is_json_type response.content_type)
  require (leb (response.body.size) max_response_bytes)
  value ← response.body.value
  require (admits false value)
  as_object value

-- `_get_json`
unfoldable pub get_json : Provider → String → String → Option Fields
unfolding response_object
get_json provider path key = do response ← provider.get path key; response_object response

abbrev consumable_flag : Bool → Option Json → Bool
consumable_flag nullable (some (json_bool b)) = b
consumable_flag nullable (some json_null) = nullable
consumable_flag nullable _ = false

abbrev consumable_object : Bool → Option Json → Bool
consumable_object nullable (some (json_object one_time)) =
    consumable_flag nullable (lookup "is_consumable" one_time)
consumable_object nullable _ = false

-- `_is_consumable`
unfoldable pub is_consumable : Fields → Bool
is_consumable product =
    if is_text "one_time" (lookup "type" product)
    then consumable_object false (lookup "one_time" product)
    else is_text "consumable" (lookup "type" product)
      && (is_null (lookup "one_time" product) || consumable_object true (lookup "one_time" product))

-- `[A-Za-z0-9_-]{1,128}`
unfoldable pub is_resource_id : String → Bool
is_resource_id s = matches_class (λ c. is_alphanumeric c || c == 95 || c == 45) 1 128 s

-- `[A-Za-z0-9_.:$/-]{1,200}`
unfoldable pub is_transaction_id : String → Bool
is_transaction_id s = matches_class is_callback_char 1 200 s

-- A key of 16 to 512 printable ASCII characters without a space.
unfoldable pub is_api_key : String → Bool
is_api_key s =
    matches_class (λ c. leb c 127) 16 512 s
    && all_chars (λ c. leb 32 c && leb c 126) s
    && not (any_char is_space s)

-- The project and the key of the settings, where they can be used.
abbrev as_setting : SettingValue → Option String
as_setting (SettingValue.text s) = some s
as_setting _ = none

unfoldable pub credentials : Provider → Option (String × String)
unfolding is_resource_id is_api_key
credentials provider = do
  project ← as_setting provider.project_id
  require (is_resource_id project)
  key ← as_setting provider.api_key
  require (is_api_key key)
  some (project, key)

abbrev pub in_sandbox_scope : RegisteredProduct → Bool
in_sandbox_scope p =
    str_eq p.store "PLAY_STORE"
    && str_eq p.environment "SANDBOX"
    && str_eq p.product_type "consumable"

-- A complete page: its items, all of them objects.
unfoldable pub complete_page : Fields → Option (List Fields)
complete_page result = do
  require (
      is_text "list" (lookup "object" result)
      && has_key "next_page" result
      && is_null (lookup "next_page" result))
  items ← lookup "items" result
  xs ← as_list items
  objects xs

abbrev only_one : List Fields → Option Fields
only_one (x ∷ []) = some x
only_one _ = none

abbrev pub is_state : Option Json → Bool
is_state v = is_text "owned" v || is_text "refunded" v

-- The facts that a purchase must have.
unfoldable pub purchase_agrees : String → Fields → Bool
purchase_agrees owner purchase =
    is_text "purchase" (lookup "object" purchase)
    && is_text owner (lookup "customer_id" purchase)
    && is_text owner (lookup "original_customer_id" purchase)
    && is_text "sandbox" (lookup "environment" purchase)
    && is_text "play_store" (lookup "store" purchase)
    && is_text "purchased" (lookup "ownership" purchase)
    && has_key "quantity" purchase
    && quantity_is_one (lookup "quantity" purchase)
    && is_state (lookup "status" purchase)

-- The facts that the provider's product and its app must have.
unfoldable pub product_agrees :
    RegisteredProduct → String → String → Fields → Fields → Fields → Bool
unfolding is_consumable
product_agrees p project product_id found app play_store =
    is_text "product" (lookup "object" found)
    && is_text product_id (lookup "id" found)
    && is_text p.product_id (lookup "store_identifier" found)
    && is_text p.app_id (lookup "app_id" found)
    && is_consumable found
    && is_text "app" (lookup "object" app)
    && is_text p.app_id (lookup "id" app)
    && is_text "play_store" (lookup "type" app)
    && is_text project (lookup "project_id" app)
    && is_text p.application_id (lookup "package_name" play_store)

-- The event of the document that is normalized: `state` is "owned" or "refunded".
unfoldable pub sync_event :
    Codec → RegisteredProduct → String → String → String → String → String → ℕ → Fields
sync_event codec p project owner transaction_id purchase_id state purchased_at =
    field "id"
      (json_text ("revenuecat_sync_" <> codec.hex_digest (project ∷ purchase_id ∷ state ∷ [])))
      (field "app_id" (json_text p.app_id) (
        field "store" (json_text "PLAY_STORE") (
          field "environment" (json_text "SANDBOX") (
            field "product_id" (json_text p.product_id) (
              field "app_user_id" (json_text owner) (
                field "original_app_user_id" (json_text owner) (
                  field "aliases" (json_list empty_list) (
                    field "type"
                      (json_text
                        (if str_eq state "owned" then "NON_RENEWING_PURCHASE" else "CANCELLATION"))
                      (field "transaction_id" (json_text transaction_id) (
                        field "purchased_at_ms" (json_int (pos purchased_at)) (
                          field "event_timestamp_ms" (json_int (pos purchased_at))
                            (field "quantity" (json_int (pos 1)) empty_object))))))))))))

unfoldable pub sync_document :
    Codec → RegisteredProduct → String → String → String → String → String → ℕ → Json
unfolding sync_event
sync_document codec p project owner transaction_id purchase_id state purchased_at = json_object (
    field "api_version" (json_text "1.0") (
      field "event"
        (json_object
          (sync_event codec p project owner transaction_id purchase_id state purchased_at))
        empty_object))

-- The one purchase of the transaction on the complete page.
unfoldable pub find_purchase : Provider → String × String → String → Option Fields
unfolding get_json complete_page
find_purchase provider creds transaction_id = do
  result ←
      get_json provider
        ("/v2/projects/"
          <> creds.0
          <> "/purchases?"
          <> provider.urlencode "store_purchase_identifier" transaction_id)
        creds.1
  items ← complete_page result
  require (leb 1 (length items) && leb (length items) 100)
  only_one (select (λ i. is_text transaction_id (lookup "store_purchase_identifier" i)) items)

-- The provider's product agrees with the registry's.
unfoldable pub check_product :
    Provider → String × String → RegisteredProduct → String → Option (Unit {0})
unfolding get_json product_agrees
check_product provider creds p product_id = do
  found ←
      get_json provider ("/v2/projects/" <> creds.0 <> "/products/" <> product_id <> "?expand=app")
        creds.1
  app ← lookup "app" found
  app_fields ← as_object app
  play_store ← lookup "play_store" app_fields
  store_fields ← as_object play_store
  require (product_agrees p creds.0 product_id found app_fields store_fields)

unfoldable pub lookup_purchase : Provider → RegisteredProduct → String → String → Option Event
unfolding credentials find_purchase check_product purchase_agrees sync_document
lookup_purchase provider p transaction_id owner = do
  creds ← credentials provider
  require (in_sandbox_scope p && is_transaction_id transaction_id && is_some (provider.uuid owner))
  purchase ← find_purchase provider creds transaction_id
  purchase_id ← as_text (lookup "id" purchase)
  product_id ← as_text (lookup "product_id" purchase)
  state ← as_text (lookup "status" purchase)
  purchased_at ← as_natural (lookup "purchased_at" purchase)
  require (
      is_resource_id purchase_id
      && is_resource_id product_id
      && purchase_agrees owner purchase
      && leb purchased_at max_milliseconds)
  check_product provider creds p product_id
  normalize provider.codec (
      provider.dumps (
        sync_document provider.codec p creds.0 owner transaction_id purchase_id state purchased_at))

-- One purchase of the customer's page: its transaction, unless it is malformed.
unfoldable pub customer_transaction : String → Fields → Option String
customer_transaction owner i = do
  transaction_id ← as_text (lookup "store_purchase_identifier" i)
  require (
      is_text "purchase" (lookup "object" i)
      && is_text owner (lookup "customer_id" i)
      && is_text owner (lookup "original_customer_id" i)
      && is_text "sandbox" (lookup "environment" i)
      && is_transaction_id transaction_id)
  some transaction_id

-- A digest of the client under either namespace.
unfoldable pub is_candidate : Codec → RegisteredProduct → String → String → String → Bool
is_candidate codec p owner fingerprint transaction_id =
    any
      (λ namespace. str_eq fingerprint (
        codec.hex_digest
          (namespace ∷ owner ∷ p.application_id ∷ p.product_id ∷ transaction_id ∷ [])))
      ("stovio-purchase-v1" ∷ "shortform-purchase-v1" ∷ [])

-- The transactions of a page that the fingerprint names; one malformed purchase refuses the page.
unfoldable pub candidates :
    Codec → RegisteredProduct → String → String → List Fields → Option (List String)
unfolding customer_transaction is_candidate
candidates codec p owner fingerprint [] = some []
candidates codec p owner fingerprint (i ∷ rest) = do
  transaction_id ← customer_transaction owner i
  found ← candidates codec p owner fingerprint rest
  some (
      if is_candidate codec p owner fingerprint transaction_id
      then transaction_id ∷ found
      else found)

abbrev sole : List String → Option String
sole (x ∷ []) = some x
sole _ = none

-- `[0-9a-f]{64}`
unfoldable pub is_hex_digest : String → Bool
is_hex_digest s = matches_class (λ c. is_digit c || (leb 97 c && leb c 102)) 64 64 s

unfoldable pub recover_transaction_id :
    Provider → RegisteredProduct → String → String → Option String
unfolding credentials get_json complete_page candidates is_hex_digest
recover_transaction_id provider p fingerprint owner = do
  creds ← credentials provider
  require (in_sandbox_scope p && is_some (provider.uuid owner) && is_hex_digest fingerprint)
  result ←
      get_json provider
        ("/v2/projects/" <> creds.0 <> "/customers/" <> owner
          <> "/purchases?environment=sandbox&limit=100")
        creds.1
  items ← complete_page result
  require (leb (length items) 100)
  found ← candidates provider.codec p owner fingerprint items
  sole found
