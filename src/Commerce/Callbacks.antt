-- ===== src/Commerce/Callbacks.antt =====
-- backend/apps/commerce/verification.py: the fields of a callback and the event that they make.
use text.Mathlib.Text.{◌==◌ as str_eq}
use shortform_streaming.Prelude.{
  ℕ, String, Bool, true, false, ◌&&◌, ◌||◌, Option, none, some, List, [], ◌∷◌, if◌then◌else◌, leb,
  ◌==◌, is_alphanumeric, matches_class,
}
use shortform_streaming.Prelude.Int.{pos}
use shortform_streaming.Prelude.Options.{◌>>=◌, ◌>>◌, require}
use shortform_streaming.Model.{
  Environment, Event, EventType, non_renewing_purchase, cancellation, refund, other_type,
}
use shortform_streaming.Model.JsonValues.{
  Json, Fields, Body, lookup, as_object, as_text, as_natural, is_text, empty_list, item, json_list,
  json_text, json_int, admits,
}

-- What json, hashlib and uuid compute: `dumps` with its encoding; the hex
-- digest of a list of texts, and the digest of one text as a number; `text_id` is the number that stands for a text, and
-- `uuid` the UUID of a text that is one in canonical form.
pub record Codec : Type 0 where
  pub environment : Environment
  pub dumps : Json → Body
  pub text_digest : String → ℕ
  pub hex_digest : List String → String
  pub text_id : String → ℕ
  pub uuid : String → Option ℕ

abbrev pub max_body : ℕ
max_body = 32768

-- `callback_fields`; `none` is InvalidCallback.
unfoldable pub callback_fields : Body → Option Fields
callback_fields raw = do
  require (leb raw.size max_body)
  value ← raw.value
  require (admits false value)
  body ← as_object value
  require (is_text "1.0" (lookup "api_version" body))
  event ← lookup "event" body
  as_object event

-- `[A-Za-z0-9_.:$/-]`
abbrev pub is_callback_char : ℕ → Bool
is_callback_char c =
    is_alphanumeric c || c == 95 || c == 46 || c == 58 || c == 36 || c == 47 || c == 45

abbrev accepted_text : Option String → Option String
accepted_text none = none
accepted_text (some s) = if matches_class is_callback_char 1 200 s then some s else none

-- A required text of the event.
unfoldable pub callback_text : String → Fields → Option String
callback_text name event = accepted_text (as_text (lookup name event))

abbrev pub max_milliseconds : ℕ
max_milliseconds = 253402300799999

abbrev accepted_time : Option ℕ → Option ℕ
accepted_time none = none
accepted_time (some n) = if leb n max_milliseconds then some n else none

unfoldable pub callback_time : String → Fields → Option ℕ
callback_time name event = accepted_time (as_natural (lookup name event))

-- `aliases in ([], [owner])`, for aliases that may be missing.
abbrev pub aliases_valid : String → Option Json → Bool
aliases_valid owner none = true
aliases_valid owner (some (json_list empty_list)) = true
aliases_valid owner (some (json_list (item (json_text s) empty_list))) = str_eq s owner
aliases_valid owner _ = false

abbrev pub original_valid : String → Option Json → Bool
original_valid owner none = true
original_valid owner v = is_text owner v

abbrev pub quantity_is_one : Option Json → Bool
quantity_is_one none = true
quantity_is_one (some (json_int (pos n))) = n == 1
quantity_is_one _ = false

abbrev pub event_type_of : String → EventType
event_type_of s =
    if str_eq s "NON_RENEWING_PURCHASE"
    then non_renewing_purchase
    else if str_eq s "CANCELLATION"
    then cancellation
    else if str_eq s "REFUND"
    then refund
    else other_type

-- `normalize`, from the fields on.
unfoldable pub event_of_fields : Codec → Fields → Option Event
unfolding callback_text callback_time
event_of_fields codec event = do
  id ← callback_text "id" event
  app_id ← callback_text "app_id" event
  store ← callback_text "store" event
  environment ← callback_text "environment" event
  product_id ← callback_text "product_id" event
  owner ← callback_text "app_user_id" event
  type ← callback_text "type" event
  transaction_id ← callback_text "transaction_id" event
  purchased_at_ms ← callback_time "purchased_at_ms" event
  event_timestamp_ms ← callback_time "event_timestamp_ms" event
  some (record {
    event_key = codec.environment.digest (codec.text_id app_id ∷ codec.text_id id ∷ []);
    transaction_key = codec.environment.digest (
        codec.text_id app_id
        ∷ codec.text_id store
        ∷ codec.text_id environment
        ∷ codec.text_id transaction_id
        ∷ []);
    transaction_fingerprint = codec.text_digest transaction_id;
    app_id = codec.text_id app_id;
    store = codec.text_id store;
    environment = codec.text_id environment;
    product_id = codec.text_id product_id;
    owner = codec.text_id owner;
    owner_uuid = codec.uuid owner;
    event_type = event_type_of type;
    quantity_valid = quantity_is_one (lookup "quantity" event);
    identity_valid =
        aliases_valid owner (lookup "aliases" event)
        && original_valid owner (lookup "original_app_user_id" event);
    purchased_at_ms = purchased_at_ms;
    event_timestamp_ms = event_timestamp_ms;
  })

unfoldable pub normalize : Codec → Body → Option Event
unfolding callback_fields event_of_fields
normalize codec raw = do event ← callback_fields raw; event_of_fields codec event
