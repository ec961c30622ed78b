-- ===== src/Commerce/Reads.antt =====
-- backend/apps/commerce/reads.py: the account's history, the catalog of an application and the
-- status of one purchase. The table of decisions lists the latest `created_at` first.
use shortform_streaming.Prelude.{
  ℕ, Bool, true, false, not, ◌&&◌, ◌||◌, Option, none, some, List, [], ◌∷◌, map, if◌then◌else◌,
  select, find, any, take, length, ltb, ◌==◌, is_just,
}
use shortform_streaming.Model.{
  UserProfile, PurchaseDecision, Product, Environment, Store, Error, Action, gets, or_raise,
  raise_if, pure, ◌>>=◌, ◌>>◌,
}
use shortform_streaming.Accounts.{lock_current_profile}
use shortform_streaming.Commerce.Packs.{purchases_enabled}
use shortform_streaming.Commerce.Catalog.{Offer, catalog_offers}
use shortform_streaming.Commerce.Fulfilment.{is_credited}
use shortform_streaming.Commerce.Callbacks.{Codec}

-- `identity__wallet__user_profile=profile`
unfoldable pub is_of_profile : Store → UserProfile → PurchaseDecision → Bool
is_of_profile db p d =
    any
      (λ i.
        is_just i.pk d.identity
        && any (λ w. w.pk == i.wallet && is_just p.pk w.user_profile) db.wallets)
      db.identities

-- `Exists(PurchaseEvent… status="quarantined")`
unfoldable pub needs_review : Store → PurchaseDecision → Bool
needs_review db d = any (λ e. e.decision == d.pk && not (is_credited e.status)) db.events

pub data PurchaseStatus : Type 0 where
  awaiting_verification : PurchaseStatus
  credited review_required : ℕ → ℕ → PurchaseStatus

-- The coins and the reference of a credited decision, and whether it is under review.
unfoldable pub status_of : Store → PurchaseDecision → PurchaseStatus
unfolding needs_review
status_of db d =
    if needs_review db d
    then PurchaseStatus.review_required d.coins d.pk
    else PurchaseStatus.credited d.coins d.pk

unfoldable pub credited_decisions : Store → UserProfile → List PurchaseDecision
unfolding is_of_profile
credited_decisions db p = select (λ d. is_of_profile db p d && is_credited d.status) db.decisions

-- The lines of the history, and `has_more`.
unfoldable pub purchase_history : Environment → UserProfile → Action (List PurchaseStatus × Bool)
unfolding credited_decisions status_of
purchase_history env profile = do
  raise_if (not (purchases_enabled env)) Error.purchase_unavailable
  p ← lock_current_profile env profile
  decisions ← gets (λ db. credited_decisions db p)
  lines ← gets (λ db. map (status_of db) (take 20 decisions))
  pure (lines, ltb 20 (length decisions))

abbrev first_product : List Product → Option Product
first_product [] = none
first_product (p ∷ ps) = some p

abbrev is_empty : List Offer → Bool
is_empty [] = true
is_empty (o ∷ os) = false

-- A binding of the app or the application that is not theirs.
unfoldable pub bound_elsewhere : ℕ → ℕ → Store → Bool
bound_elsewhere app application db =
    any
      (λ b.
        (b.app_id == app || b.application_id == application)
        && not (b.app_id == app && b.application_id == application))
      db.bindings

unfoldable pub selected_products : Environment → ℕ → List Product
selected_products env application = select (λ p. p.application_id == application) env.products

unfoldable pub purchase_catalog : Environment → ℕ → UserProfile → ℕ → Action (List Offer)
unfolding bound_elsewhere selected_products
purchase_catalog env now profile application = do
  raise_if (not (purchases_enabled env)) Error.purchase_unavailable
  let selected = selected_products env application
  first ← or_raise (first_product selected) Error.purchase_unavailable
  p ← lock_current_profile env profile
  elsewhere ← gets (bound_elsewhere first.app_id application)
  raise_if elsewhere Error.purchase_unavailable
  offers ← gets (λ db. catalog_offers db now selected)
  raise_if (is_empty offers) Error.purchase_unavailable
  pure offers

-- The decision that credited the transaction to this profile.
unfoldable pub find_credited : ℕ → ℕ → UserProfile → Store → Option PurchaseDecision
unfolding is_of_profile
find_credited key product_id p db =
    find
      (λ d.
        d.transaction_key == key
        && is_just product_id d.product_id
        && is_of_profile db p d
        && is_credited d.status)
      db.decisions

abbrev pub status_or_awaiting : Store → Option PurchaseDecision → PurchaseStatus
status_or_awaiting db none = PurchaseStatus.awaiting_verification
status_or_awaiting db (some d) = status_of db d

-- The key of the store's namespace; `transaction` is the digest of the transaction's id.
abbrev pub namespace_key : Codec → ℕ → ℕ → ℕ
namespace_key codec application transaction =
    codec.environment.digest
      (application ∷ codec.text_id "PLAY_STORE" ∷ codec.text_id "SANDBOX" ∷ transaction ∷ [])

unfoldable pub purchase_status : Codec → UserProfile → ℕ → ℕ → ℕ → Action PurchaseStatus
unfolding find_credited status_of
purchase_status codec profile application product_id transaction = do
  raise_if (not (purchases_enabled codec.environment)) Error.purchase_unavailable
  p ← lock_current_profile codec.environment profile
  found ← gets (find_credited (namespace_key codec application transaction) product_id p)
  gets (λ db. status_or_awaiting db found)
