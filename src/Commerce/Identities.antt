-- ===== src/Commerce/Identities.antt =====
-- backend/apps/commerce/services.py: purchase identities and the binding of applications.
use shortform_streaming.Prelude.{
  ℕ, Bool, true, false, not, Option, none, some, [], ◌∷◌, if◌then◌else◌, any, find, ◌==◌,
}
use shortform_streaming.Model.{
  UserProfile, Wallet, PurchaseIdentity, ApplicationBinding, Product, Event, Environment, Error,
  Action, gets, modify, raise_if, fresh, pure, ◌>>=◌, ◌>>◌,
}
use shortform_streaming.Accounts.{lock_current_profile}
use shortform_streaming.Wallet.Ledger.{get_or_create_wallet}
use shortform_streaming.Commerce.Packs.{purchases_enabled}

-- `PurchaseIdentity.objects.get_or_create(wallet=wallet)`
unfoldable pub or_new_identity : Wallet → Option PurchaseIdentity → Action PurchaseIdentity
or_new_identity w (some i) = pure i
or_new_identity w none = do
  pk ← fresh
  let i : PurchaseIdentity = record { pk = pk; wallet = w.pk }
  modify (λ db. record db { identities = i ∷ db.identities })
  pure i

unfoldable pub purchase_identity : Environment → UserProfile → Action PurchaseIdentity
unfolding or_new_identity
purchase_identity env profile = do
  raise_if (not (purchases_enabled env)) Error.purchase_unavailable
  p ← lock_current_profile env profile
  w ← get_or_create_wallet p
  known ← gets (λ db. find (λ i. i.wallet == w.pk) db.identities)
  or_new_identity w known

-- `Event.fingerprint` and `Event.claim`
abbrev pub fingerprint : Environment → Event → ℕ
fingerprint env event = env.event_digest event

abbrev pub claim : Environment → Event → ℕ
claim env event =
    env.digest (event.transaction_key ∷ event.product_id ∷ event.owner ∷ event.purchased_at_ms ∷ [])

-- The binding of the app: the stored one, or a new one unless the application is bound elsewhere.
unfoldable pub bind_application :
    Event → Product → Option ApplicationBinding → Bool → Action (Option ApplicationBinding)
bind_application event scope (some binding) taken = pure (some binding)
bind_application event scope none true = pure none
bind_application event scope none false = do
  let binding : ApplicationBinding = record {
    app_id = event.app_id;
    application_id = scope.application_id;
  }
  modify (λ db. record db { bindings = binding ∷ db.bindings })
  pure (some binding)

-- The event under the key of its store namespace.
unfoldable pub rekeyed : Environment → Event → Product → Option ApplicationBinding → Option Event
rekeyed env event scope none = none
rekeyed env event scope (some binding) =
    if not (binding.application_id == scope.application_id)
    then none
    else some (record event {
      transaction_key = env.digest (
          binding.application_id ∷ event.store ∷ event.environment ∷ event.transaction_fingerprint
          ∷ []);
    })

unfoldable pub scoped_application : Environment → Event → Option Product → Action (Option Event)
unfolding bind_application rekeyed
scoped_application env event none = pure none
scoped_application env event (some scope) = do
  known ← gets (λ db. find (λ b. b.app_id == event.app_id) db.bindings)
  taken ← gets (λ db. any (λ b. b.application_id == scope.application_id) db.bindings)
  binding ← bind_application event scope known taken
  pure (rekeyed env event scope binding)

unfoldable pub resolve_application : Environment → Event → Action (Option Event)
unfolding scoped_application
resolve_application env event =
    scoped_application env event (find (λ p. p.app_id == event.app_id) env.products)
