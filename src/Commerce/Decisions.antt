-- ===== src/Commerce/Decisions.antt =====
-- backend/apps/commerce/services.py: one decision for each store transaction.
use shortform_streaming.Prelude.{
  ℕ, Bool, true, false, not, ◌&&◌, ◌||◌, Option, none, some, ◌∷◌, if◌then◌else◌, find, ◌==◌,
  is_some, is_just, any, leb,
}
use shortform_streaming.Prelude.Int.{pos, leb_ℤ}
use shortform_streaming.Model.{
  Wallet, Kind, CoinLedgerEntry, PurchaseIdentity, PurchaseDecision, Status, Reason, Product, Event,
  EventType, Environment, Store, Error, Action, gets, modify, raise_if, fresh, pure, ◌>>=◌, ◌>>◌,
  max_entry_coins,
}
use shortform_streaming.Accounts.{current_profile}
use shortform_streaming.Wallet.Ledger.{create_entry}
use shortform_streaming.Commerce.Packs.{credited_coins}
use shortform_streaming.Commerce.Identities.{claim}

unfoldable pub find_decision : ℕ → Store → Option PurchaseDecision
find_decision key db = find (λ d. d.transaction_key == key) db.decisions

-- commerce_valid_decision_credit
abbrev pub valid_credit : PurchaseDecision → Bool
valid_credit d = elim d.status [
  | Status.credited ↦
      leb 1 d.coins && leb d.coins max_entry_coins && is_some d.ledger_entry && is_some d.identity
  | Status.quarantined ↦ d.coins == 0 && not (is_some d.ledger_entry)
]

abbrev is_purchase_kind : Kind → Bool
is_purchase_kind Kind.purchase = true
is_purchase_kind _ = false

-- The credit that a decision names, in the wallet of its identity.
abbrev is_credit_of : PurchaseDecision → ℕ → CoinLedgerEntry → Bool
is_credit_of d w e =
    is_just e.pk d.ledger_entry
    && e.wallet == w
    && is_purchase_kind e.kind
    && e.reference == d.pk
    && leb_ℤ e.amount (pos d.coins)
    && leb_ℤ (pos d.coins) e.amount

-- `commerce_guard_credit`
unfoldable pub has_credit : PurchaseDecision → Store → Bool
has_credit d db = elim d.status [
  | Status.quarantined ↦ true
  | Status.credited ↦
      any (λ i. is_just i.pk d.identity && any (is_credit_of d i.wallet) db.entries) db.identities
]

-- `PurchaseDecision.objects.create`: the key is unique.
unfoldable pub create_decision : PurchaseDecision → Action PurchaseDecision
unfolding has_credit
create_decision d = do
  known ← gets (find_decision d.transaction_key)
  credited ← gets (has_credit d)
  raise_if (is_some known || not (valid_credit d) || not credited) Error.integrity_error
  modify (λ db. record db { decisions = d ∷ db.decisions })
  pure d

-- `_quarantine`
unfoldable pub quarantine : Environment → Event → Reason → Action PurchaseDecision
unfolding create_decision
quarantine env event reason = do
  pk ← fresh
  create_decision (record {
    pk = pk;
    transaction_key = event.transaction_key;
    claim_fingerprint = claim env event;
    status = Status.quarantined;
    reason = reason;
    identity = none;
    ledger_entry = none;
    coins = 0;
    product_id = none;
    application_id = none;
  })

-- The current owner of an identity, and the wallet to credit.
pub record Owner : Type 0 where
  pub identity : PurchaseIdentity
  pub wallet : Wallet

unfoldable pub attached_owner : Environment → Store → PurchaseIdentity → Wallet → Option Owner
attached_owner env db i w = elim w.user_profile [
  | none ↦ none
  | some pk ↦ elim (find (λ p. p.pk == pk) db.profiles) [
    | none ↦ none
    | some p ↦ elim (current_profile env p db) [
      | none ↦ none
      | some q ↦ some (record { identity = i; wallet = w })
    ]
  ]
]

unfoldable pub find_owner : Environment → Option ℕ → Store → Option Owner
unfolding attached_owner
find_owner env none db = none
find_owner env (some uuid) db = elim (find (λ i. i.pk == uuid) db.identities) [
  | none ↦ none
  | some i ↦ elim (find (λ w. w.pk == i.wallet) db.wallets) [
    | none ↦ none
    | some w ↦ attached_owner env db i w
  ]
]

-- The credit of a verified purchase.
unfoldable pub credit : Environment → ℕ → Event → Product → Owner → Action PurchaseDecision
unfolding create_decision
credit env now event product owner = do
  receipt_id ← fresh
  coins ← gets (λ db. credited_coins db now product event.purchased_at_ms)
  entry ← create_entry now owner.wallet receipt_id Kind.purchase (pos coins)
  create_decision (record {
    pk = receipt_id;
    transaction_key = event.transaction_key;
    claim_fingerprint = claim env event;
    status = Status.credited;
    reason = Reason.verified_purchase;
    identity = some owner.identity.pk;
    ledger_entry = some entry.pk;
    coins = coins;
    product_id = some product.product_id;
    application_id = some product.application_id;
  })

abbrev pub is_reversal : EventType → Bool
is_reversal EventType.cancellation = true
is_reversal EventType.refund = true
is_reversal _ = false

abbrev pub is_purchase : EventType → Bool
is_purchase EventType.non_renewing_purchase = true
is_purchase _ = false

unfoldable pub product_of : Environment → Event → Option Product
product_of env event =
    find (λ p. p.app_id == event.app_id && p.product_id == event.product_id) env.products

-- The first reason of `_decide`, if any, to quarantine the event before its owner is looked up.
unfoldable pub objection : Event → Bool → Product → Option Reason
objection event conflict product =
    if conflict
    then some Reason.event_conflict
    else if not (event.store == product.store) || not (event.environment == product.environment)
    then some Reason.unsupported_scope
    else if is_reversal event.event_type
    then some Reason.refund_before_credit
    else if not (is_purchase event.event_type)
    then some Reason.unsupported_event
    else if not event.quantity_valid
    then some Reason.invalid_quantity
    else if not event.identity_valid
    then some Reason.identity_conflict
    else none

unfoldable pub credit_owner :
    Environment → ℕ → Event → Product → Option Owner → Action PurchaseDecision
unfolding quarantine credit
credit_owner env now event product none = quarantine env event Reason.unknown_or_deleted_owner
credit_owner env now event product (some owner) = credit env now event product owner

unfoldable pub decide_product :
    Environment → ℕ → Event → Product → Option Reason → Action PurchaseDecision
unfolding credit_owner quarantine
decide_product env now event product (some reason) = quarantine env event reason
decide_product env now event product none = do
  owner ← gets (find_owner env event.owner_uuid)
  credit_owner env now event product owner

-- `_decide`
unfoldable pub decide : Environment → ℕ → Event → Bool → Option Product → Action PurchaseDecision
unfolding decide_product quarantine
decide env now event conflict none =
    quarantine env event (if conflict then Reason.event_conflict else Reason.unsupported_scope)
decide env now event conflict (some product) =
    decide_product env now event product (objection event conflict product)

-- The decision of the transaction: what is stored under either key, or a new one.
unfoldable pub decision_for :
    Environment
    → ℕ
    → Event
    → Option Event
    → Bool
    → Option PurchaseDecision
    → Option PurchaseDecision
    → Action PurchaseDecision
unfolding decide quarantine
decision_for env now event resolved conflict (some d) stored = pure d
decision_for env now event resolved conflict none (some d) = pure d
decision_for env now event none conflict none none = quarantine env event Reason.unsupported_scope
decision_for env now event (some e) conflict none none =
    decide env now e conflict (product_of env e)
