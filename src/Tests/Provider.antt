-- ===== src/Tests/Provider.antt =====
-- A sandbox purchase of a hundred coins at the provider (backend/apps/commerce).
use text.Mathlib.Text.{◌==◌ as str_eq}
use shortform_streaming.Prelude.{
  ℕ, zero, suc, String, ◌≡◌, ◌⊎◌, refl, ap, true, Option, none, some, List, [], ◌∷◌, if◌then◌else◌,
  all_chars, any_char, arith,
}
use shortform_streaming.Prelude.Int.{pos, ◌+ℤ◌}
use shortform_streaming.Model.{
  PurchaseMode, SettingValue, Environment, Event, PurchaseEvent, Status, Reason, Store, Outcome, ok,
  err, ◌>>=◌, non_renewing_purchase,
}
use shortform_streaming.Model.JsonValues.{
  Json, Fields, Body, json_null, json_int, json_list, json_object, json_text, empty_object, field,
  empty_list, item, admits,
}
use shortform_streaming.Wallet.Ledger.{create_entry, balance}
use shortform_streaming.Commerce.Registry.{RegisteredProduct}
use shortform_streaming.Commerce.Callbacks.{Codec, normalize}
use shortform_streaming.Commerce.Provider.{Response, Provider, lookup_purchase, is_transaction_id}
use shortform_streaming.Commerce.Provider.Verified.{
  IsVerified, IsReported, IsStated, lookup_purchase-IsVerified,
}
use shortform_streaming.Commerce.Notifications.{
  registered_product, cannot_credit, process_notification,
}
use shortform_streaming.Commerce.Notifications.Confirmed.{IsConfirmed, notification_effect}
use shortform_streaming.Commerce.Reads.{purchase_status, purchase_catalog, PurchaseStatus}
use shortform_streaming.Commerce.Reconciliation.{synchronize_purchase, identity_of}
use shortform_streaming.Commerce.Reconciliation.Effects.{synchronize_purchase-others}
use shortform_streaming.Tests.World.{environment, settings, profile, db}
use shortform_streaming.Tests.Registry.{registered}
use shortform_streaming.Accounts.{lock_current_profile, current_profile}
use shortform_streaming.Commerce.Decisions.{product_of, objection, find_owner, find_decision}
use shortform_streaming.Commerce.Fulfilment.{delivery_status, fulfill, find_event}
use shortform_streaming.Commerce.Identities.{resolve_application}
use shortform_streaming.Commerce.Packs.{
  reconciliation_enabled, is_live, purchases_enabled, paid_at, is_honored, credited_coins,
}
use shortform_streaming.Commerce.Catalog.{catalog_offers}

-- A key is written as so many letters.
abbrev uuid_text : ℕ → String
uuid_text zero = String.[]
uuid_text (suc n) = let rest = uuid_text n in String.◌∷◌ "a" rest

abbrev letters : String → ℕ
letters String.[] = 0
letters (String.◌∷◌ c s) = let n = letters s in suc n

canonical : (n : ℕ) → some (letters (uuid_text n)) ≡ some n
canonical n = ap some (letters_lem n)
  where
    letters_lem : (n : ℕ) → letters (uuid_text n) ≡ n
    letters_lem zero = refl
    letters_lem (suc n) = ap suc (letters_lem n)

abbrev text_id : String → ℕ
text_id s = letters s

abbrev sandbox : Environment
sandbox = record environment {
  settings = record settings { coin_purchase_mode = PurchaseMode.revenuecat_sandbox };
  products =
      record {
        app_id = 5;
        application_id = 15;
        product_id = 9;
        coins = 100;
        store = 10;
        environment = 7;
      }
      ∷ [];
}

abbrev written : Json → Body
written v = record { size = 10; value = some v }

abbrev codec : Codec
codec = record {
  environment = sandbox;
  dumps = written;
  text_digest = text_id;
  hex_digest = λ texts. "ab";
  text_id = text_id;
  uuid = λ s. some (letters s);
}

abbrev purchase : Fields
purchase = field "object" (json_text "purchase") (
    field "id" (json_text "purch1") (
      field "product_id" (json_text "prod1") (
        field "store_purchase_identifier" (json_text "GPA.1") (
          field "customer_id" (json_text "aaaa") (
            field "original_customer_id" (json_text "aaaa") (
              field "environment" (json_text "sandbox") (
                field "store" (json_text "play_store") (
                  field "ownership" (json_text "purchased") (
                    field "quantity" (json_int (pos 1)) (
                      field "status" (json_text "owned")
                        (field "purchased_at" (json_int (pos 3)) empty_object)))))))))))

abbrev page : Json
page = json_object (
    field "object" (json_text "list") (
      field "next_page" json_null
        (field "items" (json_list (item (json_object purchase) empty_list)) empty_object)))

abbrev app : Fields
app = field "object" (json_text "app") (
    field "id" (json_text "app12") (
      field "type" (json_text "play_store") (
        field "project_id" (json_text "proj") (
          field "play_store"
            (json_object (field "package_name" (json_text "com.example.app") empty_object))
            empty_object))))

abbrev provider_product : Json
provider_product = json_object (
    field "object" (json_text "product") (
      field "id" (json_text "prod1") (
        field "store_identifier" (json_text "coins_100") (
          field "app_id" (json_text "app12")
            (field "type" (json_text "consumable") (field "app" (json_object app) empty_object))))))

abbrev answered : Json → Option Response
answered v =
    some
      (record { status = 200; content_type = "application/json; charset=utf-8"; body = written v })

abbrev provider : Provider
provider = record {
  codec = codec;
  project_id = SettingValue.text "proj";
  api_key = SettingValue.text "sk_0123456789abcdef";
  get = λ path key.
      if str_eq path "/v2/projects/proj/purchases?GPA.1"
      then answered page
      else if str_eq path "/v2/projects/proj/products/prod1?expand=app"
      then answered provider_product
      else none;
  urlencode = λ name value. value;
}

abbrev registry : List RegisteredProduct
registry = registered ∷ []

abbrev event : Event
event = record {
  event_key = 5;
  transaction_key = 5;
  transaction_fingerprint = 5;
  app_id = 5;
  store = 10;
  environment = 7;
  product_id = 9;
  owner = 4;
  owner_uuid = some 4;
  event_type = non_renewing_purchase;
  quantity_valid = true;
  identity_valid = true;
  purchased_at_ms = 3;
  event_timestamp_ms = 3;
}

looked_up : lookup_purchase provider registered "GPA.1" "aaaa" ≡ some event
unfolding lookup_purchase all_chars any_char is_transaction_id admits normalize
looked_up = refl

lookup_purchase-IsVerified_example :
    (reported : IsReported provider registered "GPA.1" "aaaa") × IsVerified codec registered "GPA.1"
      "aaaa" event
    × IsStated codec registered reported.creds.0 reported.purchase event
lookup_purchase-IsVerified_example =
    lookup_purchase-IsVerified provider registered "GPA.1" "aaaa" event (λ value. refl) looked_up

abbrev store_after : {A : Type 0} → Outcome A → Store
store_after (ok a s) = s
store_after (err e) = db

abbrev notification : Body
notification = written (
    json_object (
      field "api_version" (json_text "1.0") (
        field "event"
          (json_object (
            field "id" (json_text "evt1") (
              field "app_id" (json_text "app12") (
                field "store" (json_text "PLAY_STORE") (
                  field "environment" (json_text "SANDBOX") (
                    field "product_id" (json_text "coins_100") (
                      field "app_user_id" (json_text "aaaa") (
                        field "type" (json_text "NON_RENEWING_PURCHASE") (
                          field "transaction_id" (json_text "GPA.1") (
                            field "purchased_at_ms" (json_int (pos 3))
                              (field "event_timestamp_ms" (json_int (pos 4)) empty_object)))))))))))
          empty_object)))

abbrev noted : Store
unfolding process_notification
noted = store_after (process_notification provider registry 7 notification db)

abbrev recorded : PurchaseEvent
recorded = record {
  event_key = 5;
  fingerprint = 5;
  decision = 1000;
  status = Status.credited;
  reason = Reason.verified_purchase;
}

notified : process_notification provider registry 7 notification db ≡ ok (some recorded) noted
unfolding process_notification lookup_purchase all_chars any_char is_transaction_id admits normalize
    ◌>>=◌ balance current_profile find_decision find_owner objection product_of find_event fulfill
    resolve_application cannot_credit registered_product credited_coins is_honored paid_at
    purchases_enabled create_entry ◌+ℤ◌ delivery_status
notified = refl

notification_effect_example :
    (noted.entries ≡ db.entries) ⊎ IsConfirmed provider registry notification
notification_effect_example =
    notification_effect provider registry 7 notification db noted (some recorded) refl notified

abbrev synced : Store
synced = store_after (
    synchronize_purchase provider registry uuid_text 7 7 profile "com.example.app" "coins_100"
      "GPA.1" db)

synchronized :
    synchronize_purchase provider registry uuid_text 7 7 profile "com.example.app" "coins_100"
      "GPA.1" db
    ≡ ok (PurchaseStatus.credited 100 1000) synced
unfolding synchronize_purchase lookup_purchase all_chars any_char is_transaction_id admits normalize
    ◌>>=◌ balance create_entry credited_coins find_decision find_event find_owner fulfill objection
    product_of purchases_enabled resolve_application lock_current_profile catalog_offers is_live
    reconciliation_enabled purchase_catalog ◌+ℤ◌ delivery_status is_honored paid_at purchase_status
synchronized = refl

mine : identity_of profile db ≡ some (record { pk = 4; wallet = 1 })
unfolding identity_of
mine = refl

synchronize_purchase-others_example : balance 2 synced.entries ≡ balance 2 db.entries
synchronize_purchase-others_example =
    synchronize_purchase-others provider registry uuid_text 7 7 profile "com.example.app"
      "coins_100" "GPA.1" (record { pk = 4; wallet = 1 }) db (λ value. refl) canonical mine refl
      synced (PurchaseStatus.credited 100 1000) synchronized 2 (λ e. absurd (omega (arith, e)))
