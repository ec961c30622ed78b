-- ===== src/Commerce/Notifications.antt =====
-- backend/apps/commerce/notifications.py: what an authenticated notification leads to.
pub mod Confirmed
use Prim.Native.String.{count}
use text.Mathlib.Text.{◌==◌ as str_eq}
use shortform_streaming.Prelude.{
  ℕ, String, Bool, true, false, not, ◌&&◌, ◌||◌, Option, none, some, List, find, any, leb, ◌==◌,
  is_some, if◌then◌else◌,
}
use shortform_streaming.Model.{
  Event, EventType, cancellation, PurchaseEvent, Product, Environment, Store, Error, Action, gets,
  or_raise, raise_if, pure, raise, ◌>>=◌, ◌>>◌,
}
use shortform_streaming.Model.JsonValues.{Fields, Body, lookup, as_text}
use shortform_streaming.Commerce.Registry.{RegisteredProduct}
use shortform_streaming.Commerce.Callbacks.{Codec, callback_fields, normalize}
use shortform_streaming.Commerce.Provider.{Provider, lookup_purchase}
use shortform_streaming.Commerce.Decisions.{is_purchase, is_reversal}
use shortform_streaming.Commerce.Fulfilment.{fulfill}

-- A row of the registry, with its texts as numbers.
abbrev pub as_product : Codec → RegisteredProduct → Product
as_product codec p = record {
  app_id = codec.text_id p.app_id;
  application_id = codec.text_id p.application_id;
  product_id = codec.text_id p.product_id;
  coins = p.coins;
  store = codec.text_id p.store;
  environment = codec.text_id p.environment;
}

-- `type`, where it is a text of 1 to 200 characters.
unfoldable pub notification_type : Fields → Option String
notification_type fields = elim (as_text (lookup "type" fields)) [
  | none ↦ none
  | some type ↦ if leb 1 (count type) && leb (count type) 200 then some type else none
]

abbrev pub is_relevant : String → Bool
is_relevant type = str_eq type "NON_RENEWING_PURCHASE" || str_eq type "CANCELLATION"

abbrev pub is_cancellation : EventType → Bool
is_cancellation EventType.cancellation = true
is_cancellation _ = false

unfoldable pub registered_product :
    Codec → List RegisteredProduct → Event → Option RegisteredProduct
registered_product codec registry event =
    find
      (λ p.
        codec.text_id p.app_id == event.app_id && codec.text_id p.product_id == event.product_id)
      registry

-- The owner is the identity of a wallet that belongs to an account.
unfoldable pub has_attached_identity : Store → Option ℕ → Bool
has_attached_identity db none = false
has_attached_identity db (some uuid) =
    any (λ i. i.pk == uuid && any (λ w. w.pk == i.wallet && is_some w.user_profile) db.wallets)
      db.identities

-- The event cannot credit, so the provider is not asked.
unfoldable pub cannot_credit : Codec → Event → RegisteredProduct → Store → Bool
unfolding has_attached_identity
cannot_credit codec event p db =
    not (event.store == codec.text_id p.store)
    || not (event.environment == codec.text_id p.environment)
    || not event.identity_valid
    || not event.quantity_valid
    || not (has_attached_identity db event.owner_uuid)

-- The provider's event is about the notified purchase.
unfoldable pub confirms : Event → Event → Bool
confirms verified event =
    verified.transaction_key == event.transaction_key
    && verified.transaction_fingerprint == event.transaction_fingerprint
    && verified.app_id == event.app_id
    && verified.store == event.store
    && verified.environment == event.environment
    && verified.product_id == event.product_id
    && verified.owner == event.owner
    && verified.purchased_at_ms == event.purchased_at_ms
    && verified.quantity_valid
    && verified.identity_valid
    && (is_purchase verified.event_type || is_cancellation verified.event_type)

-- The event under the type that the provider reports, or the refusal that lets it be sent again.
unfoldable pub fulfill_confirmed : Environment → ℕ → Event → Option Event → Action PurchaseEvent
unfolding confirms
fulfill_confirmed env now event none = raise Error.verification_unavailable
fulfill_confirmed env now event (some verified) = do
  raise_if (not (confirms verified event)) Error.verification_unavailable
  fulfill env now (
      if is_cancellation verified.event_type
      then record event { event_type = cancellation }
      else event)

abbrev pub text_or_empty : Option String → String
text_or_empty none = ""
text_or_empty (some s) = s

-- A purchase that could credit is confirmed first; `fields` holds its transaction and its owner.
unfoldable pub ask_or_fulfill :
    Provider → ℕ → Fields → Event → RegisteredProduct → Bool → Action PurchaseEvent
unfolding fulfill_confirmed
ask_or_fulfill provider now fields event p true = fulfill provider.environment now event
ask_or_fulfill provider now fields event p false =
    fulfill_confirmed provider.environment now event (
      lookup_purchase provider p (text_or_empty (as_text (lookup "transaction_id" fields)))
        (text_or_empty (as_text (lookup "app_user_id" fields))))

unfoldable pub process_purchase :
    Provider → ℕ → Fields → Event → Option RegisteredProduct → Action PurchaseEvent
unfolding ask_or_fulfill
process_purchase provider now fields event none = fulfill provider.environment now event
process_purchase provider now fields event (some p) = do
  hopeless ← gets (cannot_credit provider.codec event p)
  ask_or_fulfill provider now fields event p hopeless

-- A cancellation is recorded at once.
unfoldable pub process_event :
    Provider → List RegisteredProduct → ℕ → Fields → Event → Bool → Action PurchaseEvent
unfolding process_purchase
process_event provider registry now fields event true = fulfill provider.environment now event
process_event provider registry now fields event false =
    process_purchase provider now fields event (registered_product provider.codec registry event)

unfoldable pub process_relevant :
    Provider → List RegisteredProduct → ℕ → Body → Fields → Bool → Action (Option PurchaseEvent)
unfolding process_event
process_relevant provider registry now raw fields false = pure none
process_relevant provider registry now raw fields true = do
  event ← or_raise (normalize provider.codec raw) Error.invalid_callback
  recorded ← process_event provider registry now fields event (is_cancellation event.event_type)
  pure (some recorded)

-- `process_notification`; `registry` is what `products()` gives.
unfoldable pub process_notification :
    Provider → List RegisteredProduct → ℕ → Body → Action (Option PurchaseEvent)
unfolding notification_type process_relevant
process_notification provider registry now raw = do
  fields ← or_raise (callback_fields raw) Error.invalid_callback
  type ← or_raise (notification_type fields) Error.invalid_callback
  process_relevant provider registry now raw fields (is_relevant type)
