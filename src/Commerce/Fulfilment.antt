-- ===== src/Commerce/Fulfilment.antt =====
-- backend/apps/commerce/services.py: the delivery of an event. The advisory locks are no state: a
-- call is one transaction.
use shortform_streaming.Prelude.{
  ℕ, Bool, true, false, not, ◌&&◌, ◌||◌, Option, none, some, ◌∷◌, if◌then◌else◌, any, find, ◌==◌,
}
use shortform_streaming.Model.{
  PurchaseDecision, PurchaseEvent, Status, Reason, Event, Environment, Store, Error, Action, gets,
  modify, raise_if, pure, ◌>>=◌, ◌>>◌,
}
use shortform_streaming.Commerce.Packs.{purchases_enabled}
use shortform_streaming.Commerce.Identities.{fingerprint, claim, resolve_application}
use shortform_streaming.Commerce.Decisions.{find_decision, is_reversal, is_purchase, decision_for}

abbrev pub is_credited : Status → Bool
is_credited Status.credited = true
is_credited Status.quarantined = false

-- The status and the reason that this delivery records.
unfoldable pub delivery_status : Environment → Event → Bool → PurchaseDecision → Status × Reason
delivery_status env event conflict d =
    if conflict
    then (Status.quarantined, Reason.event_conflict)
    else if is_reversal event.event_type && is_credited d.status
    then (Status.quarantined, Reason.refund_after_credit)
    else if not (d.claim_fingerprint == claim env event)
        || (not event.identity_valid && is_credited d.status)
    then (Status.quarantined, Reason.transaction_conflict)
    else if not (is_purchase event.event_type) || not event.quantity_valid
    then (Status.quarantined, (if is_credited d.status then Reason.unsupported_event else d.reason))
    else (d.status, d.reason)

abbrev pub or_event : Option Event → Event → Event
or_event none event = event
or_event (some e) event = e

unfoldable pub find_event : ℕ → ℕ → Store → Option PurchaseEvent
find_event key print db = find (λ e. e.event_key == key && e.fingerprint == print) db.events

-- A delivery that was not seen before.
unfoldable pub deliver : Environment → ℕ → Event → Action PurchaseEvent
unfolding decision_for
deliver env now event = do
  conflict ← gets (λ db. any (λ e. e.event_key == event.event_key) db.events)
  resolved ← resolve_application env event
  fallback ← gets (find_decision event.transaction_key)
  let current = or_event resolved event
  stored ← gets (find_decision current.transaction_key)
  d ← decision_for env now event resolved conflict fallback stored
  let delivery = delivery_status env current conflict d
  let record_of : PurchaseEvent = record {
    event_key = current.event_key;
    fingerprint = fingerprint env event;
    decision = d.pk;
    status = delivery.0;
    reason = delivery.1;
  }
  modify (λ db. record db { events = record_of ∷ db.events })
  pure record_of

unfoldable pub or_deliver : Environment → ℕ → Event → Option PurchaseEvent → Action PurchaseEvent
unfolding deliver
or_deliver env now event (some seen) = pure seen
or_deliver env now event none = deliver env now event

unfoldable pub fulfill : Environment → ℕ → Event → Action PurchaseEvent
unfolding or_deliver
fulfill env now event = do
  raise_if (not (purchases_enabled env)) Error.purchase_unavailable
  seen ← gets (find_event event.event_key (fingerprint env event))
  or_deliver env now event seen
