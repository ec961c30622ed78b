-- ===== src/Tests/Purchases.antt =====
-- A purchase of the pack of 150 coins, its deliveries, and prices.
use mathlib.Core.List.{Memᴰ}
use shortform_streaming.Commerce.Settled.{IsSettled, decided_never_credited}
use shortform_streaming.Prelude.{inr}
use shortform_streaming.Prelude.{◌≡◌, ◌⊎◌, ◌≤◌, ◌<◌, ◌+◌, ◌*◌, refl, true, some, [], ◌∷◌, arith}
use shortform_streaming.Prelude.Int.{pos, ◌+ℤ◌}
use shortform_streaming.Model.{
  Event, EventType, PurchaseDecision, PurchaseEvent, Status, Reason, Kind, Store, CoinPack, ok,
  ◌>>=◌,
}
use shortform_streaming.Accounts.{current_profile, is_deleted}
use shortform_streaming.Wallet.Ledger.{create_entry, balance}
use shortform_streaming.Commerce.Packs.{
  credited_coins, pack_coins, is_honored, paid_at, purchases_enabled,
}
use shortform_streaming.Commerce.Identities.{resolve_application}
use shortform_streaming.Commerce.Decisions.{
  find_decision, find_owner, product_of, objection, decision_for,
}
use shortform_streaming.Commerce.Fulfilment.{fulfill, delivery_status, find_event}
use shortform_streaming.Commerce.Deliveries.{DeliveryEffect, fulfill_effect, redelivery}
use shortform_streaming.Commerce.Packs.{is_live}
use shortform_streaming.Commerce.Catalog.{live_pack, comes_first}
use shortform_streaming.Commerce.Offers.{live_pack_best}
use shortform_streaming.Commerce.Pricing.{
  IsPayable, credited_coins_covers, credited_coins_source, pack_coins_bounds,
}
use shortform_streaming.Tests.World.{environment, product, pack, db}

abbrev event : Event
event = record {
  event_key = 21;
  transaction_key = 77;
  transaction_fingerprint = 30;
  app_id = 1;
  store = 1;
  environment = 1;
  product_id = 3;
  owner = 40;
  owner_uuid = some 4;
  event_type = EventType.non_renewing_purchase;
  quantity_valid = true;
  identity_valid = true;
  purchased_at_ms = 1;
  event_timestamp_ms = 1;
}

abbrev decision : PurchaseDecision
decision = record {
  pk = 1000;
  transaction_key = 2;
  claim_fingerprint = 2;
  status = Status.credited;
  reason = Reason.verified_purchase;
  identity = some 4;
  ledger_entry = some 1001;
  coins = 150;
  product_id = some 3;
  application_id = some 2;
}

abbrev delivery : PurchaseEvent
delivery = record {
  event_key = 21;
  fingerprint = 21;
  decision = 1000;
  status = Status.credited;
  reason = Reason.verified_purchase;
}

abbrev after : Store
after = record db {
  entries =
      record {
        pk = 1001;
        wallet = 1;
        reference = 1000;
        kind = Kind.purchase;
        amount = pos 150;
        created_at = 5000;
      }
      ∷ db.entries;
  bindings = record { app_id = 1; application_id = 2 } ∷ [];
  decisions = decision ∷ [];
  events = delivery ∷ [];
  next_id = 1002;
}

fulfilled : fulfill environment 5000 event db ≡ ok delivery after
unfolding fulfill purchases_enabled find_event resolve_application find_decision decision_for
    product_of objection find_owner current_profile is_deleted credited_coins is_honored paid_at
    create_entry balance delivery_status ◌+ℤ◌ ◌>>=◌
fulfilled = refl

fulfill_effect_example : DeliveryEffect environment 5000 event db after
fulfill_effect_example = fulfill_effect environment 5000 event db after delivery fulfilled

redelivery_example : fulfill environment 9000 event after ≡ ok delivery after
redelivery_example = redelivery environment 5000 event db after delivery 9000 fulfilled

-- Another event of the same transaction.
abbrev second : Event
second = record event { event_key = 22; transaction_key = 78 }

abbrev second_resolved : Event
second_resolved = record second { transaction_key = 2 }

resolved_second : resolve_application environment second after ≡ ok (some second_resolved) after
unfolding resolve_application ◌>>=◌
resolved_second = refl

decided : find_decision second_resolved.transaction_key after ≡ some decision
unfolding find_decision
decided = refl

enabled : purchases_enabled environment ≡ true
unfolding purchases_enabled
enabled = refl

decided_never_credited_example : IsSettled (fulfill environment 9000 second after) after
decided_never_credited_example =
    decided_never_credited environment 9000 second after (some second_resolved) after decision
      enabled resolved_second (inr decided)

before_payment : 500 ≤ paid_at 1 5000
unfolding paid_at
before_payment = omega arith

near_payment : paid_at 1 5000 < 500 + 86400000000
unfolding paid_at
near_payment = omega arith

credited_coins_covers_example :
    (100 ≤ credited_coins db 5000 product 1) × (150 ≤ credited_coins db 5000 product 1)
credited_coins_covers_example =
    credited_coins_covers db 5000 product 1 500 pack (Memᴰ.head refl) refl
      (record {
        has_started = refl;
        has_not_ended = refl;
        has_not_retired = refl;
        is_created = omega arith;
      })
      before_payment near_payment

credited_coins_source_example :
    (100 ≤ credited_coins db 5000 product 1)
    × ((p : CoinPack)
        → Memᴰ p db.packs
        → IsPayable 3 (paid_at 1 5000) p
        → p.coins ≤ credited_coins db 5000 product 1)
    × ((credited_coins db 5000 product 1 ≡ 100)
        ⊎ ((p : CoinPack) × Memᴰ p db.packs
            × IsPayable 3 (paid_at 1 5000) p
            × (p.coins ≡ credited_coins db 5000 product 1)))
credited_coins_source_example = credited_coins_source db 5000 product 1

pack_coins_bounds_example :
    (333 ≤ pack_coins 333 50)
    × (pack_coins 333 50 ≤ 3 * 333)
    × (pack_coins 333 50 ≤ 2147483647)
    × (100 * pack_coins 333 50 ≤ 333 * (100 + 50))
    × (333 * (100 + 50) < 100 * pack_coins 333 50 + 100)
pack_coins_bounds_example = pack_coins_bounds 333 50 (omega arith) (omega arith)

abbrev small_pack : CoinPack
small_pack = record pack { pk = 2; bonus = 0; coins = 100 }

abbrev shop : Store
shop = record db { packs = small_pack ∷ pack ∷ [] }

shown : live_pack shop 7 3 ≡ some pack
unfolding live_pack is_live comes_first
shown = refl

small_is_live : is_live 7 small_pack ≡ true
unfolding is_live
small_is_live = refl

live_pack_best_example :
    Memᴰ pack shop.packs × (is_live 7 pack ≡ true) × (pack.product_id ≡ 3) × (100 ≤ 150)
live_pack_best_example =
    live_pack_best shop 7 3 pack small_pack shown (Memᴰ.head refl) small_is_live refl
