-- ===== src/Commerce/Provider/Verified.antt =====
-- What an event that backend/apps/commerce/revenuecat.py returns has been checked against.
use text.Mathlib.Text.{◌==◌ as str_eq}
use Prim.Native.String.{◌++◌ as ◌<>◌}
use text.Mathlib.TextEquality.{eq_iff}
use shortform_streaming.Prelude.{
  ℕ, String, ◌≡◌, ◌∙◌, sym, ap, refl, ◌⊎◌, Bool, true, false, some, [], ◌∷◌, arith, is_some,
  if◌then◌else◌, inl, inr, ◌&&◌, leb, &&_three, &&_four,
}
use shortform_streaming.Prelude.Options.{bind_some, passed_check, then_some}
use shortform_streaming.Model.{Event, non_renewing_purchase, cancellation}
use shortform_streaming.Model.JsonValues.{Json, Fields, lookup, as_text, as_natural}
use shortform_streaming.Commerce.Registry.{RegisteredProduct}
use shortform_streaming.Commerce.Callbacks.{
  Codec, normalize, callback_fields, event_of_fields, callback_text, callback_time, event_type_of,
  max_milliseconds,
}
use shortform_streaming.Commerce.Provider.{
  Provider, lookup_purchase, sync_document, sync_event, credentials, find_purchase, check_product,
  purchase_agrees, in_sandbox_scope, is_transaction_id, is_resource_id,
}

-- The event states these facts of a sandbox purchase of the product by the owner.
pub record IsVerified (codec : Codec) (p : RegisteredProduct) (transaction_id owner : String)
    (e : Event) : Type 0 where
  pub app : e.app_id ≡ codec.text_id p.app_id
  pub product : e.product_id ≡ codec.text_id p.product_id
  pub store : e.store ≡ codec.text_id "PLAY_STORE"
  pub environment : e.environment ≡ codec.text_id "SANDBOX"
  pub owned : e.owner ≡ codec.text_id owner
  pub owner_uuid : e.owner_uuid ≡ codec.uuid owner
  pub transaction :
      e.transaction_key
      ≡ codec.environment.digest (
          codec.text_id p.app_id
          ∷ codec.text_id "PLAY_STORE"
          ∷ codec.text_id "SANDBOX"
          ∷ codec.text_id transaction_id
          ∷ [])
  pub one : e.quantity_valid ≡ true
  pub one_owner : e.identity_valid ≡ true
  pub one_time : e.event_timestamp_ms ≡ e.purchased_at_ms
  pub known_type : (e.event_type ≡ non_renewing_purchase) ⊎ (e.event_type ≡ cancellation)

-- The key of the event of a purchase in one state.
abbrev pub event_key_of : Codec → RegisteredProduct → String → String → String → ℕ
event_key_of codec p project purchase_id state = codec.environment.digest (
    codec.text_id p.app_id
    ∷ codec.text_id ("revenuecat_sync_" <> codec.hex_digest (project ∷ purchase_id ∷ state ∷ []))
    ∷ [])

-- The event states what the provider says of this purchase: an owned one is a purchase and a
-- refunded one a cancellation, at its instant, and each purchase in each state has its own key.
pub record IsStated (codec : Codec) (p : RegisteredProduct) (project : String) (purchase : Fields)
    (e : Event) : Type 0 where
  pub bought :
      as_text (lookup "status" purchase) ≡ some "owned" → e.event_type ≡ non_renewing_purchase
  pub taken_back :
      as_text (lookup "status" purchase) ≡ some "refunded" → e.event_type ≡ cancellation
  pub instant : as_natural (lookup "purchased_at" purchase) ≡ some e.purchased_at_ms
  pub keyed :
      (id state : String)
      → as_text (lookup "id" purchase) ≡ some id
      → as_text (lookup "status" purchase) ≡ some state
      → e.event_key ≡ event_key_of codec p project id state

module _ (codec : Codec) (p : RegisteredProduct)
    (project owner transaction_id purchase_id state : String) (purchased_at : ℕ) (e : Event) where
  abbrev document : Json
  document = sync_document codec p project owner transaction_id purchase_id state purchased_at

  abbrev event_fields : Fields
  event_fields = sync_event codec p project owner transaction_id purchase_id state purchased_at

  fields_read :
      (codec.dumps document).value ≡ some document
      → normalize codec (codec.dumps document) ≡ some e
      → event_of_fields codec event_fields ≡ some e
  unfolding normalize callback_fields sync_document
  fields_read trip run = ground (arith, trip)

  type_cases :
      (owned : Bool)
      → let type = event_type_of (if owned then "NON_RENEWING_PURCHASE" else "CANCELLATION") in
        (type ≡ non_renewing_purchase) ⊎ (type ≡ cancellation)
  type_cases true = inl refl
  type_cases false = inr refl

  event-IsVerified :
      event_of_fields codec event_fields ≡ some e → IsVerified codec p transaction_id owner e
  unfolding event_of_fields callback_text callback_time sync_event
  event-IsVerified run = record {
    app = ground arith;
    product = ground arith;
    store = ground arith;
    environment = ground arith;
    owned = ground arith;
    owner_uuid = ground arith;
    transaction = ground arith;
    one = ground arith;
    one_owner = ground (arith, (eq_iff owner owner).1 refl);
    one_time = ground arith;
    known_type =
        let typed : e.event_type
            ≡ event_type_of
                (if str_eq state "owned" then "NON_RENEWING_PURCHASE" else "CANCELLATION") =
          ground arith in
        rw typed (type_cases (str_eq state "owned"));
  }

  event_typed :
      event_of_fields codec event_fields ≡ some e
      → e.event_type
        ≡ event_type_of (if str_eq state "owned" then "NON_RENEWING_PURCHASE" else "CANCELLATION")
  unfolding event_of_fields callback_text callback_time sync_event
  event_typed run = ground arith

  event_instant : event_of_fields codec event_fields ≡ some e → e.purchased_at_ms ≡ purchased_at
  unfolding event_of_fields callback_text callback_time sync_event
  event_instant run = ground arith

  event_keyed :
      event_of_fields codec event_fields ≡ some e
      → e.event_key ≡ event_key_of codec p project purchase_id state
  unfolding event_of_fields callback_text callback_time sync_event
  event_keyed run = ground arith

  event-IsStated :
      (purchase : Fields)
      → as_text (lookup "id" purchase) ≡ some purchase_id
      → as_text (lookup "status" purchase) ≡ some state
      → as_natural (lookup "purchased_at" purchase) ≡ some purchased_at
      → event_of_fields codec event_fields ≡ some e
      → IsStated codec p project purchase e
  event-IsStated purchase i s t run = record {
    bought = λ owned.
        let same : state ≡ "owned" = cc (s, owned) in
        let typed = event_typed run in rw same at typed;
    taken_back = λ refunded.
        let same : state ≡ "refunded" = cc (s, refunded) in
        let typed = event_typed run in rw same at typed;
    instant = t ∙ ap some (sym (event_instant run));
    keyed = λ id st is_id is_state.
        let same_id : purchase_id ≡ id = cc (i, is_id) in
        let same_state : state ≡ st = cc (s, is_state) in
        let key = event_keyed run in rw (same_id, same_state) at key;
  }

  document-IsStated :
      (purchase : Fields)
      → as_text (lookup "id" purchase) ≡ some purchase_id
      → as_text (lookup "status" purchase) ≡ some state
      → as_natural (lookup "purchased_at" purchase) ≡ some purchased_at
      → (codec.dumps document).value ≡ some document
      → normalize codec (codec.dumps document) ≡ some e
      → IsStated codec p project purchase e
  document-IsStated purchase i s t trip run = event-IsStated purchase i s t (fields_read trip run)

  document-IsVerified :
      (codec.dumps document).value ≡ some document
      → normalize codec (codec.dumps document) ≡ some e
      → IsVerified codec p transaction_id owner e
  document-IsVerified trip run = event-IsVerified (fields_read trip run)

-- The provider's own facts about the purchase: it is the only one of the transaction on a complete
-- page, and it is owned by the customer.
pub record IsReported (provider : Provider) (p : RegisteredProduct) (transaction_id owner : String)
    : Type 0 where
  pub creds : String × String
  pub purchase : Fields
  pub found : find_purchase provider creds transaction_id ≡ some purchase
  pub agrees : purchase_agrees owner purchase ≡ true
  pub scope : in_sandbox_scope p ≡ true
  pub canonical : is_some (provider.uuid owner) ≡ true

-- An event that the lookup returns is verified: the provider reports on a complete page exactly one
-- purchase of the transaction, of quantity one and owned by this customer in the sandbox, and the
-- event states this product, this owner and this transaction. Of that purchase it states the instant
-- and the status: an owned one is a purchase and a refunded one a cancellation, under a key that is
-- made of the project, the purchase and its status.
-- The codec reads back what it writes.
pub lookup_purchase-IsVerified :
    (provider : Provider) (p : RegisteredProduct) (transaction_id owner : String) (e : Event)
    → ((value : Json) → (provider.dumps value).value ≡ some value)
    → lookup_purchase provider p transaction_id owner ≡ some e
    → (reported : IsReported provider p transaction_id owner) × IsVerified provider.codec p
        transaction_id owner e
      × IsStated provider.codec p reported.creds.0 reported.purchase e
unfolding lookup_purchase
lookup_purchase-IsVerified provider p transaction_id owner e trip run =
    let (creds, c, run1) = bind_some (credentials provider) _ e run in
    let (allowed, run2) =
      passed_check
        (in_sandbox_scope p && is_transaction_id transaction_id && is_some (provider.uuid owner)) _
        e run1 in
    let (purchase, found, run3) =
      bind_some (find_purchase provider creds transaction_id) _ e run2 in
    let (purchase_id, i, run4) = bind_some (as_text (lookup "id" purchase)) _ e run3 in
    let (product_id, q, run5) = bind_some (as_text (lookup "product_id" purchase)) _ e run4 in
    let (state, s, run6) = bind_some (as_text (lookup "status" purchase)) _ e run5 in
    let (purchased_at, t, run7) =
      bind_some (as_natural (lookup "purchased_at" purchase)) _ e run6 in
    let (facts, run8) =
      passed_check
        (is_resource_id purchase_id
          && is_resource_id product_id
          && purchase_agrees owner purchase
          && leb purchased_at max_milliseconds)
        _ e run7 in
    let (scope, tx, canonical) =
      &&_three (in_sandbox_scope p) (is_transaction_id transaction_id)
        (is_some (provider.uuid owner)) allowed in
    let (pid, rid, agrees, time) =
      &&_four (is_resource_id purchase_id) (is_resource_id product_id)
        (purchase_agrees owner purchase) (leb purchased_at max_milliseconds) facts in
    let run9 = then_some (check_product provider creds p product_id) _ e run8 in
    (
      record {
        creds = creds;
        purchase = purchase;
        found = found;
        agrees = agrees;
        scope = scope;
        canonical = canonical;
      },
      document-IsVerified provider.codec p creds.0 owner transaction_id purchase_id state
          purchased_at e (trip _) run9,
      document-IsStated provider.codec p creds.0 owner transaction_id purchase_id state purchased_at
          e purchase i s t (trip _) run9,
    )
