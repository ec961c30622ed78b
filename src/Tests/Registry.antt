-- ===== src/Tests/Registry.antt =====
-- A registry of one product (backend/apps/commerce/configuration.py).
use mathlib.Core.List.{Memᴰ}
use shortform_streaming.Prelude.{
  ◌≡◌, ◌≤◌, ◌↔◌, refl, true, false, some, [], ◌∷◌, split_on, all_chars,
}
use shortform_streaming.Prelude.Int.{pos}
use shortform_streaming.Model.{PurchaseMode}
use shortform_streaming.Model.JsonValues.{
  Json, Fields, empty_object, field, json_list, json_object, json_text, json_int, json_bool,
  empty_list, item,
}
use shortform_streaming.Commerce.Registry.{RegisteredProduct, approved_scope, load_products}
use shortform_streaming.Commerce.Registry.Scope.{load_products-keys, load_products-accepted}

abbrev row : Fields
row = field "app_id" (json_text "app12") (
    field "application_id" (json_text "com.example.app") (
      field "product_id" (json_text "coins_100") (
        field "coins" (json_int (pos 100)) (
          field "approval_reference" (json_text "D-036") (
            field "store" (json_text "PLAY_STORE") (
              field "environment" (json_text "SANDBOX") (
                field "price_source" (json_text "store") (
                  field "finance_owner_role" (json_text "finance") (
                    field "synthetic" (json_bool false)
                      (field "product_type" (json_text "consumable") empty_object))))))))))

abbrev registry : Json
registry = json_list (item (json_object row) empty_list)

abbrev pub registered : RegisteredProduct
registered = record {
  app_id = "app12";
  application_id = "com.example.app";
  product_id = "coins_100";
  coins = 100;
  approval_reference = "D-036";
  store = "PLAY_STORE";
  environment = "SANDBOX";
  price_source = "store";
  finance_owner_role = "finance";
  product_type = "consumable";
}

loads : load_products PurchaseMode.revenuecat_sandbox registry ≡ some (registered ∷ [])
unfolding load_products split_on all_chars
loads = refl

load_products-keys_example :
    (((registered.app_id ≡ registered.app_id) × (registered.product_id ≡ registered.product_id))
      ↔ (registered ≡ registered))
    × ((registered.app_id ≡ registered.app_id)
        ↔ (registered.application_id ≡ registered.application_id))
load_products-keys_example =
    load_products-keys PurchaseMode.revenuecat_sandbox registry (registered ∷ []) loads registered
      registered (Memᴰ.head refl) (Memᴰ.head refl)

load_products-accepted_example :
    (approved_scope false registered ≡ true) × (1 ≤ 100) × (100 ≤ 2147483647)
load_products-accepted_example =
    load_products-accepted PurchaseMode.revenuecat_sandbox registry (registered ∷ []) loads false
      registered refl (Memᴰ.head refl)
