-- ===== src/Commerce/Reconciliation/Effects.antt =====
-- Whose wallet backend/apps/commerce/reconciliation.py can change.
use shortform_streaming.Prelude.{
  ℕ, String, ◌≡◌, ◌≢◌, refl, ◌∙◌, sym, ap, inl, inr, some, List, arith, find, ◌==◌, ==_iff,
  find_holds, Option-cases,
}
use shortform_streaming.Model.{
  UserProfile, PurchaseIdentity, Event, Environment, Store, ok, ◌>>=◌, Outcome-cases, bind_ok,
  raise_if_ok, or_raise_ok, gets_ok,
}
use shortform_streaming.Model.JsonValues.{Json}
use shortform_streaming.Accounts.{lock_current_profile}
use shortform_streaming.Wallet.Ledger.{balance}
use shortform_streaming.Commerce.Catalog.{Offer}
use shortform_streaming.Commerce.Registry.{RegisteredProduct}
use shortform_streaming.Commerce.Provider.{Provider, lookup_purchase}
use shortform_streaming.Commerce.Provider.Verified.{lookup_purchase-IsVerified}
use shortform_streaming.Commerce.Decisions.{Owner, find_owner, attached_owner}
use shortform_streaming.Commerce.Fulfilment.{fulfill}
use shortform_streaming.Commerce.Deliveries.{fulfill_effect}
use shortform_streaming.Commerce.Notifications.Confirmed.{resolved-SameFacts}
use shortform_streaming.Commerce.Reads.{PurchaseStatus, purchase_catalog, purchase_status}
use shortform_streaming.Commerce.Reconciliation.{
  identity_of, fulfill_answer, ask_provider, synchronize_purchase,
}

catalog_same :
    (env : Environment) (now : ℕ) (profile : UserProfile) (application : ℕ) (db db' : Store)
    (x : List Offer)
    → purchase_catalog env now profile application db ≡ ok x db'
    → db' ≡ db
unfolding purchase_catalog lock_current_profile ◌>>=◌
catalog_same env now profile application db db' x h = ground arith

status_same :
    (provider : Provider) (profile : UserProfile) (application product transaction : ℕ)
    (db db' : Store) (x : PurchaseStatus)
    → purchase_status provider.codec profile application product transaction db ≡ ok x db'
    → db' ≡ db
unfolding purchase_status lock_current_profile ◌>>=◌
status_same provider profile application product transaction db db' x h = ground arith

lock_same :
    (env : Environment) (profile p : UserProfile) (db db' : Store)
    → lock_current_profile env profile db ≡ ok p db'
    → db' ≡ db
unfolding lock_current_profile ◌>>=◌
lock_same env profile p db db' h = ground arith

-- The owner of an identity's key is credited in the wallet of that identity.
owner_wallet :
    (env : Environment) (i : PurchaseIdentity) (db : Store) (owner : Owner)
    → find (λ j. j.pk == i.pk) db.identities ≡ some i
    → find_owner env (some i.pk) db ≡ some owner
    → owner.wallet.pk ≡ i.wallet
unfolding find_owner attached_owner
owner_wallet env i db owner unique h =
    elim (Option-cases (find (λ w. w.pk == i.wallet) db.wallets)) [
      | inl no_wallet ↦ absurd (ground (arith, unique))
      | inr (w, held) ↦
          let same : w ≡ owner.wallet = ground (arith, unique) in
          rw (← same)
            ((==_iff w.pk i.wallet).0 (find_holds (λ w. w.pk == i.wallet) db.wallets w held))
    ]

-- A fulfilled event of an identity changes the balance of no wallet but the identity's.
fulfilled_others :
    (env : Environment) (now : ℕ) (event : Event) (i : PurchaseIdentity) (db db' : Store)
    → event.owner_uuid ≡ some i.pk
    → find (λ j. j.pk == i.pk) db.identities ≡ some i
    → fulfill_answer env now (some event) db ≡ ok tt db'
    → (v : ℕ) → v ≢ i.wallet
    → balance v db'.entries ≡ balance v db.entries
unfolding fulfill_answer ◌>>=◌
fulfilled_others env now event i db db' owned unique h v other =
    elim (Outcome-cases (fulfill env now event db)) [
      | inr (e, failed) ↦ absurd (ground (arith, failed))
      | inl (r, out, done) ↦
          let same : out ≡ db' = ground (arith, done) in
          elim (fulfill_effect env now event db db' r (rw (← same) done)) [
            | inl kept ↦ ap (balance v) kept
            | inr (e, mid, res, undecided, c) ↦
                let f = resolved-SameFacts env event e db mid res in
                let w =
                  owner_wallet env i db c.owner unique (rw (← owned, ← f.same_owner) c.owned) in
                c.others v (λ eq. other (eq ∙ w))
          ]
    ]

module _ (provider : Provider) (registry : List RegisteredProduct) (uuid_text : ℕ → String)
    (now later : ℕ) (profile : UserProfile) (application_id product_id transaction_id : String)
    (i : PurchaseIdentity) (db : Store)
    (trip : (value : Json) → (provider.dumps value).value ≡ some value)
    (canonical : (n : ℕ) → provider.uuid (uuid_text n) ≡ some n)
    (own : identity_of profile db ≡ some i)
    (unique : find (λ j. j.pk == i.pk) db.identities ≡ some i) where
  asked_others :
      (p : RegisteredProduct) (db' : Store)
      → ask_provider provider uuid_text later p transaction_id (some i) db ≡ ok tt db'
      → (v : ℕ) → v ≢ i.wallet
      → balance v db'.entries ≡ balance v db.entries
  unfolding ask_provider fulfill_answer ◌>>=◌
  asked_others p db' h v other =
      elim (Option-cases (lookup_purchase provider p transaction_id (uuid_text i.pk))) [
        | inl unresolved ↦ let same : db ≡ db' = ground (arith, unresolved) in rw same refl
        | inr (event, found) ↦
            let (reported, verified, stated) =
              lookup_purchase-IsVerified provider p transaction_id (uuid_text i.pk) event trip
                found in
            fulfilled_others provider.environment later event i db db'
              (verified.owner_uuid ∙ canonical i.pk) unique (rw found at h) v other
      ]

  -- Synchronizing a purchase changes the balance of no wallet but that of the caller's own purchase
  -- identity, whatever the provider answers. An identity's key is its own, its text is its
  -- canonical UUID, and json reads back what it writes.
  pub synchronize_purchase-others :
      (db' : Store) (x : PurchaseStatus)
      → synchronize_purchase provider registry uuid_text now later profile application_id product_id
          transaction_id db
        ≡ ok x db'
      → (v : ℕ) → v ≢ i.wallet
      → balance v db'.entries ≡ balance v db.entries
  unfolding synchronize_purchase
  synchronize_purchase-others db' x h v other =
      let (u, s1, checked, h1) = bind_ok _ _ db db' x h in
      let (p, s2, selected, h2) = bind_ok _ _ s1 db' x h1 in
      let (offers, s3, offered, h3) = bind_ok _ _ s2 db' x h2 in
      let (q, s4, locked, h4) = bind_ok _ _ s3 db' x h3 in
      let (found, s5, read, h5) = bind_ok _ _ s4 db' x h4 in
      let (asked, s6, answered, h6) = bind_ok _ _ s5 db' x h5 in
      let e1 : s1 ≡ db = (raise_if_ok _ _ db s1 u checked).1 in
      let e2 : s2 ≡ db = (or_raise_ok _ _ s1 s2 p selected).1 ∙ e1 in
      let e3 : s3 ≡ db = catalog_same _ now profile _ s2 s3 offers offered ∙ e2 in
      let e4 : s4 ≡ db = lock_same _ profile q s3 s4 locked ∙ e3 in
      let (known, same) = gets_ok (identity_of profile) s4 s5 found read in
      let e5 : s5 ≡ db = same ∙ e4 in
      let mine : found ≡ some i = sym known ∙ ap (identity_of profile) e4 ∙ own in
      let e6 : db' ≡ s6 = status_same provider profile _ _ _ s6 db' x h6 in
      ap (λ s. balance v s.entries) e6 ∙ asked_others p s6 (rw (mine, e5) at answered) v other
