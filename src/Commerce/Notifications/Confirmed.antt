-- ===== src/Commerce/Notifications/Confirmed.antt =====
-- When a notification of backend/apps/commerce/notifications.py moves the coin ledger.
use shortform_streaming.Prelude.{
  ℕ, ◌≡◌, refl, sym, subst, ◌⊎◌, inl, inr, Bool, true, false, ◌&&◌, Option, none, some, List, [],
  ◌∷◌, map, find, arith, is_some, any, Bool-cases, Option-cases, ◌==◌, any-found,
}
use shortform_streaming.Model.{
  Event, EventType, cancellation, PurchaseEvent, Product, Environment, Store, ok, ◌>>=◌,
  Outcome-cases,
}
use shortform_streaming.Model.JsonValues.{Fields, Body, lookup, as_text}
use shortform_streaming.Commerce.Registry.{RegisteredProduct}
use shortform_streaming.Commerce.Callbacks.{Codec, callback_fields, normalize}
use shortform_streaming.Commerce.Provider.{Provider, lookup_purchase}
use shortform_streaming.Commerce.Identities.{resolve_application, scoped_application}
use shortform_streaming.Commerce.Decisions.{
  Owner, is_reversal, objection, product_of, find_owner, attached_owner,
}
use shortform_streaming.Commerce.Fulfilment.{fulfill}
use shortform_streaming.Commerce.Once.{IsCredit}
use shortform_streaming.Commerce.Deliveries.{fulfill_effect}
use shortform_streaming.Commerce.Notifications.{
  as_product, is_cancellation, registered_product, has_attached_identity, cannot_credit, confirms,
  fulfill_confirmed, ask_or_fulfill, process_purchase, process_event, process_relevant,
  process_notification, text_or_empty, notification_type, is_relevant,
}

-- The application only changes the key of an event.
pub record SameFacts (event e : Event) : Type 0 where
  same_app : e.app_id ≡ event.app_id
  same_product : e.product_id ≡ event.product_id
  same_store : e.store ≡ event.store
  same_environment : e.environment ≡ event.environment
  same_type : e.event_type ≡ event.event_type
  same_quantity : e.quantity_valid ≡ event.quantity_valid
  same_identity : e.identity_valid ≡ event.identity_valid
  pub same_owner : e.owner_uuid ≡ event.owner_uuid

scoped-SameFacts :
    (env : Environment) (event e : Event) (scope : Option Product) (db mid : Store)
    → scoped_application env event scope db ≡ ok (some e) mid
    → SameFacts event e
unfolding scoped_application ◌>>=◌
scoped-SameFacts env event e none db mid h = absurd (ground arith)
scoped-SameFacts env event e (some scope) db mid h = ground arith

pub resolved-SameFacts :
    (env : Environment) (event e : Event) (db mid : Store)
    → resolve_application env event db ≡ ok (some e) mid
    → SameFacts event e
unfolding resolve_application
resolved-SameFacts env event e db mid h = scoped-SameFacts env event e _ db mid h

-- A credit needs a purchase whose scope is the product's, of quantity one, by one owner.
record IsFit (event : Event) (p : Product) : Type 0 where
  fit_store : (event.store == p.store) ≡ true
  fit_environment : (event.environment == p.environment) ≡ true
  fit_type : is_reversal event.event_type ≡ false
  fit_quantity : event.quantity_valid ≡ true
  fit_identity : event.identity_valid ≡ true

objection-IsFit : (event : Event) (p : Product) → objection event false p ≡ none → IsFit event p
unfolding objection
objection-IsFit event p h = ground arith

owner_attached :
    (env : Environment) (o : Option ℕ) (db : Store) (owner : Owner)
    → find_owner env o db ≡ some owner
    → has_attached_identity db o ≡ true
unfolding find_owner attached_owner has_attached_identity
owner_attached env none db owner h = absurd (cc h)
owner_attached env (some uuid) db owner h =
    elim (Option-cases (find (λ i. i.pk == uuid) db.identities)) [
      | inl no_identity ↦ absurd (ground arith)
      | inr (i, found) ↦ elim (Option-cases (find (λ w. w.pk == i.wallet) db.wallets)) [
        | inl no_wallet ↦ absurd (ground arith)
        | inr (w, held) ↦
            any-found (λ i. i.pk == uuid)
              (λ i. any (λ w. w.pk == i.wallet && is_some w.user_profile) db.wallets) db.identities
              i found
              (any-found (λ w. w.pk == i.wallet) (λ w. is_some w.user_profile) db.wallets w held
                (ground arith))
      ]
    ]

find-map :
    (codec : Codec) (event : Event) (registry : List RegisteredProduct) (p : Product)
    → find
        (λ p. p.app_id == event.app_id && p.product_id == event.product_id)
        (map (as_product codec) registry)
      ≡ some p
    → (q : RegisteredProduct) × (registered_product codec registry event ≡ some q)
      × (as_product codec q ≡ p)
unfolding registered_product
find-map codec event [] p h = absurd (cc h)
find-map codec event (x ∷ xs) p h =
    elim (Bool-cases
      (codec.text_id x.app_id == event.app_id && codec.text_id x.product_id == event.product_id)) [
        | inl here ↦ (x, rw here refl, ground (arith, here))
        | inr there ↦
            let (q, found, same) = find-map codec event xs p (ground (arith, there)) in
            (q, rw there found, same)
      ]

fit_possible :
    (codec : Codec) (event e : Event) (q : RegisteredProduct) (db : Store)
    → SameFacts event e
    → IsFit e (as_product codec q)
    → has_attached_identity db e.owner_uuid ≡ true
    → cannot_credit codec event q db ≡ false
unfolding cannot_credit
fit_possible codec event e q db f fit attached =
    rw
      (
        ← f.same_store,
        ← f.same_environment,
        ← f.same_identity,
        ← f.same_quantity,
        ← f.same_owner,
        fit.fit_store,
        fit.fit_environment,
        fit.fit_identity,
        fit.fit_quantity,
        attached,
      )
      refl

-- The registered product of an event that is credited, and what the event says of it.
module _ (provider : Provider) (registry : List RegisteredProduct)
    (listed : provider.environment.products ≡ map (as_product provider.codec) registry) (now : ℕ)
    (event : Event) (db db' : Store) where
  credit-can :
      (e : Event) (mid : Store)
      → resolve_application provider.environment event db ≡ ok (some e) mid
      → IsCredit provider.environment now e db db'
      → (q : RegisteredProduct) × (registered_product provider.codec registry event ≡ some q)
        × (cannot_credit provider.codec event q db ≡ false)
        × (is_reversal event.event_type ≡ false)
  unfolding product_of
  credit-can e mid res c =
      let f = resolved-SameFacts provider.environment event e db mid res in
      let (q, found, same) =
        find-map provider.codec event registry c.product
          (rw (← listed, ← f.same_app, ← f.same_product) c.listed) in
      let fit = objection-IsFit e c.product c.unobjected in
      let attached = owner_attached provider.environment e.owner_uuid db c.owner c.owned in
      let fit' = subst (IsFit e) (sym same) fit in
      let possible = fit_possible provider.codec event e q db f fit' attached in
      (q, found, possible, rw (← f.same_type) fit.fit_type)

  fulfilled-same :
      (r : PurchaseEvent)
      → ((q : RegisteredProduct)
          → registered_product provider.codec registry event ≡ some q
          → cannot_credit provider.codec event q db ≡ false
          → is_reversal event.event_type ≡ true)
      → fulfill provider.environment now event db ≡ ok r db'
      → db'.entries ≡ db.entries
  fulfilled-same r hopeless h = elim (fulfill_effect provider.environment now event db db' r h) [
    | inl same ↦ same
    | inr (e, mid, res, undecided, c) ↦
        let (q, found, possible, forward) = credit-can e mid res c in
        absurd (cc (forward, hopeless q found possible))
  ]

-- The provider was asked about the purchase of the notification and has reported it as owned.
pub record IsConfirmed (provider : Provider) (registry : List RegisteredProduct) (raw : Body)
    : Type 0 where
  pub fields : Fields
  pub event : Event
  pub product : RegisteredProduct
  pub verified : Event
  pub read : callback_fields raw ≡ some fields
  pub normalized : normalize provider.codec raw ≡ some event
  pub registered : registered_product provider.codec registry event ≡ some product
  pub looked_up :
      lookup_purchase provider product
        (text_or_empty (as_text (lookup "transaction_id" fields)))
        (text_or_empty (as_text (lookup "app_user_id" fields)))
      ≡ some verified
  pub agrees : confirms verified event ≡ true
  pub owned : is_cancellation verified.event_type ≡ false

cancellation-reversal : (t : EventType) → is_cancellation t ≡ true → is_reversal t ≡ true
cancellation-reversal EventType.cancellation h = refl
cancellation-reversal EventType.refund h = refl
cancellation-reversal EventType.non_renewing_purchase h = absurd (cc h)
cancellation-reversal EventType.other_type h = absurd (cc h)

module _ (provider : Provider) (registry : List RegisteredProduct)
    (listed : provider.environment.products ≡ map (as_product provider.codec) registry) (now : ℕ)
    (raw : Body) (fields : Fields) (event : Event) (db db' : Store) (r : PurchaseEvent)
    (read : callback_fields raw ≡ some fields)
    (normalized : normalize provider.codec raw ≡ some event) where
  -- A cancellation credits nothing.
  cancelled-same :
      (e : Event)
      → is_reversal e.event_type ≡ true
      → fulfill provider.environment now e db ≡ ok r db'
      → db'.entries ≡ db.entries
  cancelled-same e reversal h =
      fulfilled-same provider registry listed now e db db' r (λ q found possible. reversal) h

  asked_effect :
      (p : RegisteredProduct) (answer : Option Event)
      → registered_product provider.codec registry event ≡ some p
      → lookup_purchase provider p
          (text_or_empty (as_text (lookup "transaction_id" fields)))
          (text_or_empty (as_text (lookup "app_user_id" fields)))
        ≡ answer
      → fulfill_confirmed provider.environment now event answer db ≡ ok r db'
      → (db'.entries ≡ db.entries) ⊎ IsConfirmed provider registry raw
  unfolding fulfill_confirmed ◌>>=◌
  asked_effect p none known asked h = absurd (ground arith)
  asked_effect p (some verified) known asked h =
      elim (Bool-cases (is_cancellation verified.event_type)) [
        | inl gone ↦ inl (
            cancelled-same (record event { event_type = cancellation }) refl (ground (arith, gone)))
        | inr owned ↦ inr (record {
          fields = fields;
          event = event;
          product = p;
          verified = verified;
          read = read;
          normalized = normalized;
          registered = known;
          looked_up = asked;
          agrees = ground arith;
          owned = owned;
        })
      ]

  purchase_effect :
      (o : Option RegisteredProduct)
      → registered_product provider.codec registry event ≡ o
      → process_purchase provider now fields event o db ≡ ok r db'
      → (db'.entries ≡ db.entries) ⊎ IsConfirmed provider registry raw
  unfolding process_purchase ask_or_fulfill ◌>>=◌
  purchase_effect none known h = inl (
      fulfilled-same provider registry listed now event db db' r
        (λ q found. absurd (cc (known, found))) h)
  purchase_effect (some p) known h = elim (Bool-cases (cannot_credit provider.codec event p db)) [
    | inl hopeless ↦ inl (
        fulfilled-same provider registry listed now event db db' r
          (λ q found possible. absurd (ground (arith, known, found, hopeless, possible)))
          (ground (arith, hopeless)))
    | inr possible ↦ asked_effect p _ known refl (ground (arith, possible))
  ]

  relevant_effect :
      process_event provider registry now fields event (is_cancellation event.event_type) db
        ≡ ok r db'
      → (db'.entries ≡ db.entries) ⊎ IsConfirmed provider registry raw
  unfolding process_event
  relevant_effect h = elim (Bool-cases (is_cancellation event.event_type)) [
    | inl gone ↦
        inl (cancelled-same event (cancellation-reversal event.event_type gone) (rw gone at h))
    | inr live ↦
        purchase_effect (registered_product provider.codec registry event) refl (rw live at h)
  ]

module _ (provider : Provider) (registry : List RegisteredProduct) (now : ℕ) (raw : Body)
    (fields : Fields) (db db' : Store) (x : Option PurchaseEvent)
    (listed : provider.environment.products ≡ map (as_product provider.codec) registry)
    (read : callback_fields raw ≡ some fields) where
  dispatched_effect :
      (relevant : Bool)
      → process_relevant provider registry now raw fields relevant db ≡ ok x db'
      → (db'.entries ≡ db.entries) ⊎ IsConfirmed provider registry raw
  unfolding process_relevant ◌>>=◌
  dispatched_effect false h = let same : db ≡ db' = ground arith in inl (rw same refl)
  dispatched_effect true h = elim (Option-cases (normalize provider.codec raw)) [
    | inl refused ↦ absurd (ground (arith, refused))
    | inr (event, normalized) ↦
        elim (Outcome-cases (
          process_event provider registry now fields event (is_cancellation event.event_type) db)) [
            | inr (e, failed) ↦ absurd (ground (arith, normalized, failed))
            | inl (r, out, done) ↦
                let same : out ≡ db' = ground (arith, normalized, done) in
                relevant_effect provider registry listed now raw fields event db db' r read
                  normalized (rw (← same) done)
          ]
  ]

-- A notification changes no coin entry, or it confirms a purchase: the body normalizes to an event
-- of a registered product, the provider was asked about its transaction and owner, and what it
-- answered agrees with every fact of the event and is not a cancellation. The products that
-- fulfilment reads are those of the registry.
pub notification_effect :
    (provider : Provider) (registry : List RegisteredProduct) (now : ℕ) (raw : Body)
    (db db' : Store) (x : Option PurchaseEvent)
    → provider.environment.products ≡ map (as_product provider.codec) registry
    → process_notification provider registry now raw db ≡ ok x db'
    → (db'.entries ≡ db.entries) ⊎ IsConfirmed provider registry raw
unfolding process_notification ◌>>=◌
notification_effect provider registry now raw db db' x listed h =
    elim (Option-cases (callback_fields raw)) [
      | inl refused ↦ absurd (ground (arith, refused))
      | inr (fields, read) ↦ elim (Option-cases (notification_type fields)) [
        | inl untyped ↦ absurd (ground (arith, read, untyped))
        | inr (type, typed) ↦
            dispatched_effect provider registry now raw fields db db' x listed read
              (is_relevant type) (ground (arith, read, typed))
      ]
    ]
