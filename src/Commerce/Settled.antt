-- ===== src/Commerce/Settled.antt =====
-- Events of decided transactions in `fulfill` of backend/apps/commerce/services.py.
use shortform_streaming.Prelude.{
  ℕ, ◌≡◌, refl, Bool, Option, none, some, ◌⊎◌, arith, inl, inr, ◌==◌, Option-cases, any, is_some,
  true, ◌||◌,
}
use shortform_streaming.Model.{
  PurchaseDecision, PurchaseEvent, Event, Environment, Store, Outcome, ok, ◌>>=◌, Outcome-cases,
}
use shortform_streaming.Commerce.Packs.{purchases_enabled}
use shortform_streaming.Commerce.Decisions.{find_decision, decision_for}
use shortform_streaming.Commerce.Identities.{resolve_application, fingerprint}
use shortform_streaming.Commerce.Fulfilment.{find_event, or_event, deliver, or_deliver, fulfill}
use shortform_streaming.Commerce.Deliveries.{same_decision, resolved_books}

-- The call commits, with the coin entries and the decisions as they were.
abbrev pub IsSettled : Outcome PurchaseEvent → Store → Type 0
IsSettled outcome db =
    (r : PurchaseEvent) × (db' : Store) × (outcome ≡ ok r db')
    × (db'.entries ≡ db.entries)
    × (db'.decisions ≡ db.decisions)

abbrev is_decided : Event → Option Event → Store → Bool
is_decided event resolved db =
    is_some (find_decision event.transaction_key db)
    || is_some (find_decision (or_event resolved event).transaction_key db)

decision_stored :
    (env : Environment) (now : ℕ) (event : Event) (resolved : Option Event) (conflict : Bool)
    (fallback stored : Option PurchaseDecision) (mid : Store)
    → (is_some fallback || is_some stored) ≡ true
    → (d : PurchaseDecision) × (decision_for env now event resolved conflict fallback stored mid
        ≡ ok d mid)
unfolding decision_for ◌>>=◌
decision_stored env now event resolved conflict (some x) stored mid h = (x, refl)
decision_stored env now event resolved conflict none (some x) mid h = (x, refl)
decision_stored env now event resolved conflict none none mid h = absurd (cc h)

deliver-IsSettled :
    (env : Environment) (now : ℕ) (event : Event) (db mid : Store) (resolved : Option Event)
    → resolve_application env event db ≡ ok resolved mid
    → is_decided event resolved db ≡ true
    → IsSettled (deliver env now event db) db
unfolding deliver ◌>>=◌
deliver-IsSettled env now event db mid resolved res known =
    let t = resolved_books env event db mid resolved res in
    let key = (or_event resolved event).transaction_key in
    let decided : is_decided event resolved mid ≡ true =
      rw (same_decision event.transaction_key t, same_decision key t) known in
    let (d, dec) =
      decision_stored env now event resolved (any (λ e. e.event_key == event.event_key) db.events)
        (find_decision event.transaction_key mid) (find_decision key mid) mid decided in
    elim (Outcome-cases (deliver env now event db)) [
      | inl (r, db', done) ↦ (
        r,
        db',
        done,
        ground (arith, res, dec, t.same_entries),
        ground (arith, res, dec, t.same_decisions),
      )
      | inr (x, failed) ↦ absurd (ground (arith, res, dec))
    ]

module _ (env : Environment) (now : ℕ) (event : Event) (db : Store) where
  -- While purchases are enabled, an event of a transaction that has a decision is always answered
  -- and never credited, whatever it says, and no decision is added: be the decision stored under
  -- the key that the event came with, or under the key to which its application resolves, where
  -- credits are stored.
  pub decided_never_credited :
      (resolved : Option Event) (mid : Store) (d : PurchaseDecision)
      → purchases_enabled env ≡ true
      → resolve_application env event db ≡ ok resolved mid
      → (find_decision event.transaction_key db ≡ some d)
        ⊎ (find_decision (or_event resolved event).transaction_key db ≡ some d)
      → IsSettled (fulfill env now event db) db
  unfolding fulfill or_deliver ◌>>=◌
  decided_never_credited resolved mid d enabled res known =
      elim (Option-cases (find_event event.event_key (fingerprint env event) db)) [
        | inr (seen, e) ↦ (seen, db, ground (arith, enabled, e), refl, refl)
        | inl unseen ↦
            let (r, db', delivered, entries, decisions) =
              deliver-IsSettled env now event db mid resolved res
                (has_decision event resolved d known) in
            (r, db', ground (arith, enabled, unseen, delivered), entries, decisions)
      ]
    where
      has_decision :
          (event : Event) (resolved : Option Event) (d : PurchaseDecision)
          → (find_decision event.transaction_key db ≡ some d)
            ⊎ (find_decision (or_event resolved event).transaction_key db ≡ some d)
          → is_decided event resolved db ≡ true
      has_decision event resolved d (inl known) = ground (arith, known)
      has_decision event resolved d (inr known) = ground (arith, known)
