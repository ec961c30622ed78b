-- ===== src/Commerce/Deliveries.antt =====
-- The effect of `fulfill` of backend/apps/commerce/services.py on the coin ledger.
use shortform_streaming.Prelude.{
  ℕ, ◌≡◌, refl, ◌∙◌, Bool, Option, none, some, ◌⊎◌, arith, inl, inr, ◌==◌, ==_refl, Option-cases,
  any, sym,
}
use shortform_streaming.Prelude.Int.{◌+ℤ◌}
use shortform_streaming.Model.{
  PurchaseDecision, PurchaseEvent, Product, Event, Environment, Store, ok, ◌>>=◌, Outcome-cases,
}
use shortform_streaming.Accounts.{current_profile, is_deleted}
use shortform_streaming.Wallet.Ledger.{balance}
use shortform_streaming.Commerce.Packs.{credited_coins}
use shortform_streaming.Commerce.Decisions.{
  attached_owner, find_owner, product_of, find_decision, decision_for,
}
use shortform_streaming.Commerce.Identities.{resolve_application, scoped_application, fingerprint}
use shortform_streaming.Commerce.Fulfilment.{find_event, or_event, deliver, or_deliver, fulfill}
use shortform_streaming.Commerce.Once.{
  SameBooks, IsCredit, unchanged, once, decide_effect, quarantine-entries,
  scoped_application-SameBooks,
}

-- What a delivery does: it credits only as the event that the application resolves to.
abbrev pub DeliveryEffect : Environment → ℕ → Event → Store → Store → Type 0
DeliveryEffect env now event db db' =
    (db'.entries ≡ db.entries)
    ⊎ ((e : Event) × (mid : Store) × (resolve_application env event db ≡ ok (some e) mid)
        × (find_decision event.transaction_key db ≡ none)
        × IsCredit env now e db db')

same_owner :
    (env : Environment) (o : Option ℕ) {db mid : Store}
    → SameBooks db mid
    → find_owner env o mid ≡ find_owner env o db
unfolding find_owner attached_owner current_profile is_deleted
same_owner env none t = refl
same_owner env (some uuid) t =
    rw (t.same_identities, t.same_wallets, t.same_profiles, t.same_deletions)

same_coins :
    (now : ℕ) (product : Product) (ms : ℕ) {db mid : Store}
    → SameBooks db mid
    → credited_coins mid now product ms ≡ credited_coins db now product ms
unfolding credited_coins
same_coins now product ms t = rw t.same_packs

pub same_decision :
    (key : ℕ) {db mid : Store} → SameBooks db mid → find_decision key mid ≡ find_decision key db
unfolding find_decision
same_decision key t = rw t.same_decisions

IsCredit-from :
    (env : Environment) (now : ℕ) (event : Event) {db mid : Store} (db' : Store)
    → SameBooks db mid
    → IsCredit env now event mid db'
    → IsCredit env now event db db'
unfolding balance ◌+ℤ◌ credited_coins
IsCredit-from env now event db' t c = record {
  product = c.product;
  owner = c.owner;
  listed = c.listed;
  unobjected = c.unobjected;
  owned = rw (← same_owner env event.owner_uuid t) c.owned;
  undecided = rw (← same_decision event.transaction_key t) c.undecided;
  credited = rw (← t.same_entries, ← same_coins now c.product event.purchased_at_ms t) c.credited;
  others = λ v ne. rw (← t.same_entries) (c.others v ne);
}

module _ (env : Environment) (now : ℕ) (event : Event) (db mid db' : Store)
    (d : PurchaseDecision) where
  decision_effect :
      (resolved : Option Event) (conflict : Bool) (fallback stored : Option PurchaseDecision)
      → resolve_application env event db ≡ ok resolved mid
      → SameBooks db mid
      → find_decision event.transaction_key db ≡ fallback
      → decision_for env now event resolved conflict fallback stored mid ≡ ok d db'
      → DeliveryEffect env now event db db'
  unfolding decision_for ◌>>=◌
  decision_effect resolved conflict (some x) stored res t known h =
      let same : mid ≡ db' = ground arith in inl (rw (← same) t.same_entries)
  decision_effect resolved conflict none (some x) res t known h =
      let same : mid ≡ db' = ground arith in inl (rw (← same) t.same_entries)
  decision_effect none conflict none none res t known h =
      inl (quarantine-entries env event _ mid db' d h ∙ t.same_entries)
  decision_effect (some e) conflict none none res t known h =
      elim (decide_effect env now e mid db' d conflict (product_of env e) refl h) [
        | unchanged same ↦ inl (same ∙ t.same_entries)
        | once c ↦ inr (e, mid, res, known, IsCredit-from env now e db' t c)
      ]

-- Only the entries decide the effect on the wallets.
later_events :
    (env : Environment) (now : ℕ) (event : Event) (db db1 db' : Store)
    → db'.entries ≡ db1.entries
    → DeliveryEffect env now event db db1
    → DeliveryEffect env now event db db'
later_events env now event db db1 db' same (inl e) = inl (same ∙ e)
later_events env now event db db1 db' same (inr (e, mid, res, known, c)) = inr (
  e,
  mid,
  res,
  known,
  record {
    product = c.product;
    owner = c.owner;
    listed = c.listed;
    unobjected = c.unobjected;
    owned = c.owned;
    undecided = c.undecided;
    credited = rw same c.credited;
    others = λ v ne. rw same (c.others v ne);
  },
)

pub resolved_books :
    (env : Environment) (event : Event) (db mid : Store) (o : Option Event)
    → resolve_application env event db ≡ ok o mid
    → SameBooks db mid
unfolding resolve_application
resolved_books env event db mid o h = scoped_application-SameBooks env event _ db mid o h

deliver_effect :
    (env : Environment) (now : ℕ) (event : Event) (db db' : Store) (r : PurchaseEvent)
    → deliver env now event db ≡ ok r db'
    → DeliveryEffect env now event db db'
unfolding deliver ◌>>=◌
deliver_effect env now event db db' r h = elim (Outcome-cases (resolve_application env event db)) [
  | inr (e, failed) ↦ absurd (ground arith)
  | inl (resolved, mid, res) ↦
      elim (Outcome-cases (
        decision_for env now event resolved (any (λ e. e.event_key == event.event_key) db.events)
          (find_decision event.transaction_key mid)
          (find_decision (or_event resolved event).transaction_key mid) mid)) [
            | inr (e, failed) ↦ absurd (ground arith)
            | inl (d, db1, dec) ↦
                let t = resolved_books env event db mid resolved res in
                later_events env now event db db1 db' (ground arith) (
                  decision_effect env now event db mid db1 d resolved _ _ _ res t
                    (sym (same_decision event.transaction_key t)) dec)
          ]
]

resolved_key :
    (env : Environment) (event e : Event) (scope : Option Product) (db mid : Store)
    → scoped_application env event scope db ≡ ok (some e) mid
    → e.event_key ≡ event.event_key
unfolding scoped_application ◌>>=◌
resolved_key env event e none db mid h = ground arith
resolved_key env event e (some scope) db mid h = ground arith

current_key :
    (env : Environment) (event : Event) (o : Option Event) (db mid : Store)
    → resolve_application env event db ≡ ok o mid
    → (or_event o event).event_key ≡ event.event_key
unfolding resolve_application
current_key env event none db mid h = refl
current_key env event (some e) db mid h = resolved_key env event e _ db mid h

deliver_stored :
    (env : Environment) (now : ℕ) (event : Event) (db db' : Store) (r : PurchaseEvent)
    → deliver env now event db ≡ ok r db'
    → find_event event.event_key (fingerprint env event) db' ≡ some r
unfolding deliver find_event ◌>>=◌
deliver_stored env now event db db' r h = elim (Outcome-cases (resolve_application env event db)) [
  | inr (e, failed) ↦ absurd (ground arith)
  | inl (resolved, mid, res) ↦ ground (
    arith,
    res,
    current_key env event resolved db mid res,
    ==_refl event.event_key,
    ==_refl (fingerprint env event),
  )
]

module _ (env : Environment) (now : ℕ) (event : Event) (db db' : Store) (r : PurchaseEvent) where
  -- A fulfilled event leaves every balance alone, or it credits exactly one wallet: the event that
  -- its application resolves to is a valid purchase of a listed product, its owner is attached and
  -- current, no decision on its transaction was stored under either key, and the wallet of the
  -- owner gains the coins that the payment is worth, while no other wallet changes.
  pub fulfill_effect : fulfill env now event db ≡ ok r db' → DeliveryEffect env now event db db'
  unfolding fulfill or_deliver ◌>>=◌
  fulfill_effect h = elim (Option-cases (find_event event.event_key (fingerprint env event) db)) [
    | inl unseen ↦ deliver_effect env now event db db' r (ground arith)
    | inr (seen, known) ↦ let same : db ≡ db' = ground arith in inl (rw same refl)
  ]

  -- A fulfilled event that is delivered again to the store it left, at any clock, gives the same
  -- answer and changes nothing.
  pub redelivery :
      (later : ℕ) → fulfill env now event db ≡ ok r db' → fulfill env later event db' ≡ ok r db'
  unfolding fulfill or_deliver ◌>>=◌
  redelivery later h = elim (Option-cases (find_event event.event_key (fingerprint env event) db)) [
    | inl unseen ↦
        let stored = deliver_stored env now event db db' r (ground arith) in ground (arith, stored)
    | inr (seen, known) ↦ ground arith
  ]
