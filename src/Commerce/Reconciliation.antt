-- ===== src/Commerce/Reconciliation.antt =====
-- backend/apps/commerce/reconciliation.py: the account asks for a purchase of its own. `now` is the
-- clock of the catalog, `later` that of the fulfilment. The calls are transactions of their own,
-- and nothing else runs between them.
pub mod Effects
use text.Mathlib.Text.{◌==◌ as str_eq}
use shortform_streaming.Prelude.{
  ℕ, String, Bool, not, ◌&&◌, Option, none, some, List, find, any, ◌==◌, is_just,
}
use shortform_streaming.Model.{
  UserProfile, PurchaseIdentity, Event, Environment, Store, Error, Action, gets, or_raise, raise_if,
  pure, ◌>>=◌, ◌>>◌,
}
use shortform_streaming.Accounts.{lock_current_profile}
use shortform_streaming.Commerce.Registry.{RegisteredProduct}
use shortform_streaming.Commerce.Packs.{reconciliation_enabled}
use shortform_streaming.Commerce.Provider.{Provider, lookup_purchase, recover_transaction_id}
use shortform_streaming.Commerce.Fulfilment.{fulfill}
use shortform_streaming.Commerce.Reads.{
  PurchaseStatus, awaiting_verification, purchase_catalog, purchase_status,
}

unfoldable pub selected_product :
    List RegisteredProduct → String → String → Option RegisteredProduct
selected_product registry application_id product_id =
    find (λ p. str_eq p.application_id application_id && str_eq p.product_id product_id) registry

-- `PurchaseIdentity.objects.filter(wallet__user_profile=profile).first()`
unfoldable pub identity_of : UserProfile → Store → Option PurchaseIdentity
identity_of profile db =
    find (λ i. any (λ w. w.pk == i.wallet && is_just profile.pk w.user_profile) db.wallets)
      db.identities

unfoldable pub fulfill_answer : Environment → ℕ → Option Event → Action (Unit {0})
fulfill_answer env now none = pure tt
fulfill_answer env now (some event) = do recorded ← fulfill env now event; pure tt

-- What the provider says of the transaction is fulfilled; `uuid_text` writes an identity's key.
unfoldable pub ask_provider :
    Provider
    → (ℕ → String)
    → ℕ
    → RegisteredProduct
    → String
    → Option PurchaseIdentity
    → Action (Unit {0})
unfolding fulfill_answer
ask_provider provider uuid_text now p transaction_id none = pure tt
ask_provider provider uuid_text now p transaction_id (some i) =
    fulfill_answer provider.environment now
      (lookup_purchase provider p transaction_id (uuid_text i.pk))

unfoldable pub synchronize_purchase :
    Provider
    → List RegisteredProduct
    → (ℕ → String)
    → ℕ
    → ℕ
    → UserProfile
    → String
    → String
    → String
    → Action PurchaseStatus
unfolding selected_product identity_of ask_provider
synchronize_purchase provider registry uuid_text now later profile application_id product_id
      transaction_id =
    do
      raise_if (not (reconciliation_enabled provider.environment)) Error.purchase_unavailable
      p ← or_raise (selected_product registry application_id product_id) Error.purchase_unavailable
      offers ← purchase_catalog provider.environment now profile (provider.text_id application_id)
      current ← lock_current_profile provider.environment profile
      identity ← gets (identity_of profile)
      asked ← ask_provider provider uuid_text later p transaction_id identity
      purchase_status provider.codec profile (provider.text_id application_id)
          (provider.text_id product_id) (provider.text_digest transaction_id)

abbrev recovered_id :
    Provider → (ℕ → String) → RegisteredProduct → String → Option PurchaseIdentity → Option String
recovered_id provider uuid_text p fingerprint none = none
recovered_id provider uuid_text p fingerprint (some i) =
    recover_transaction_id provider p fingerprint (uuid_text i.pk)

unfoldable pub synchronize_recovered :
    Provider
    → List RegisteredProduct
    → (ℕ → String)
    → ℕ
    → ℕ
    → UserProfile
    → String
    → String
    → Option String
    → Action PurchaseStatus
unfolding synchronize_purchase
synchronize_recovered provider registry uuid_text now later profile application_id product_id
      (some transaction_id) =
    synchronize_purchase provider registry uuid_text now later profile application_id product_id
      transaction_id
synchronize_recovered provider registry uuid_text now later profile application_id product_id none =
    do current ← lock_current_profile provider.environment profile; pure awaiting_verification

unfoldable pub recover_purchase :
    Provider
    → List RegisteredProduct
    → (ℕ → String)
    → ℕ
    → ℕ
    → UserProfile
    → String
    → String
    → String
    → Action PurchaseStatus
unfolding synchronize_recovered
recover_purchase provider registry uuid_text now later profile application_id product_id
      fingerprint =
    do
      raise_if (not (reconciliation_enabled provider.environment)) Error.purchase_unavailable
      p ← or_raise (selected_product registry application_id product_id) Error.purchase_unavailable
      offers ← purchase_catalog provider.environment now profile (provider.text_id application_id)
      current ← lock_current_profile provider.environment profile
      identity ← gets (identity_of profile)
      synchronize_recovered provider registry uuid_text now later profile application_id product_id
          (recovered_id provider uuid_text p fingerprint identity)
