-- ===== src/Commerce/Once.antt =====
-- The effect of one decision of backend/apps/commerce/services.py on the coin ledger.
use shortform_streaming.Prelude.{ℕ, ◌≡◌, ◌≢◌, refl, Bool, true, false, Option, none, some, arith}
use shortform_streaming.Prelude.Int.{pos, ◌+ℤ◌}
use shortform_streaming.Model.{
  PurchaseDecision, Reason, Product, Event, Environment, Store, ok, ◌>>=◌,
}
use shortform_streaming.Wallet.Ledger.{balance, create_entry}
use shortform_streaming.Commerce.Packs.{credited_coins}
use shortform_streaming.Commerce.Decisions.{
  Owner, find_owner, product_of, objection, find_decision, create_decision, quarantine, credit,
  credit_owner, decide_product, decide,
}
use shortform_streaming.Commerce.Identities.{scoped_application}

-- The tables that decide a credit are the same.
pub record SameBooks (db mid : Store) : Type 0 where
  pub same_entries : mid.entries ≡ db.entries
  pub same_decisions : mid.decisions ≡ db.decisions
  pub same_events : mid.events ≡ db.events
  pub same_packs : mid.packs ≡ db.packs
  pub same_wallets : mid.wallets ≡ db.wallets
  pub same_identities : mid.identities ≡ db.identities
  pub same_profiles : mid.profiles ≡ db.profiles
  pub same_deletions : mid.deletions ≡ db.deletions

pub scoped_application-SameBooks :
    (env : Environment) (event : Event) (scope : Option Product) (db mid : Store) (o : Option Event)
    → scoped_application env event scope db ≡ ok o mid
    → SameBooks db mid
unfolding scoped_application ◌>>=◌
scoped_application-SameBooks env event none db mid o h = ground arith
scoped_application-SameBooks env event (some scope) db mid o h = ground arith

-- One entry credits the wallet of the owner with the coins of the purchase.
pub record IsCredit (env : Environment) (now : ℕ) (event : Event) (db db' : Store) : Type 0 where
  pub product : Product
  pub owner : Owner
  pub listed : product_of env event ≡ some product
  pub unobjected : objection event false product ≡ none
  pub owned : find_owner env event.owner_uuid db ≡ some owner
  pub undecided : find_decision event.transaction_key db ≡ none
  pub credited :
      balance owner.wallet.pk db'.entries
      ≡ pos (credited_coins db now product event.purchased_at_ms)
        +ℤ balance owner.wallet.pk db.entries
  pub others : (v : ℕ) → v ≢ owner.wallet.pk → balance v db'.entries ≡ balance v db.entries

pub quarantine-entries :
    (env : Environment) (event : Event) (reason : Reason) (db db' : Store) (d : PurchaseDecision)
    → quarantine env event reason db ≡ ok d db'
    → db'.entries ≡ db.entries
unfolding quarantine create_decision ◌>>=◌
quarantine-entries env event reason db db' d h = ground arith

module _ (env : Environment) (now : ℕ) (event : Event) (db db' : Store) (d : PurchaseDecision) where
  credit-IsCredit :
      (product : Product) (owner : Owner)
      → product_of env event ≡ some product
      → objection event false product ≡ none
      → find_owner env event.owner_uuid db ≡ some owner
      → credit env now event product owner db ≡ ok d db'
      → IsCredit env now event db db'
  unfolding credit create_entry create_decision balance find_decision credited_coins ◌>>=◌
  credit-IsCredit product owner listed fine owned h = record {
    product = product;
    owner = owner;
    listed = listed;
    unobjected = fine;
    owned = owned;
    undecided = ground arith;
    credited = ground arith;
    others = λ v ne. ground arith;
  }

-- A purchase event credits nothing, or credits the wallet of its owner.
pub data CreditEffect (env : Environment) (now : ℕ) (event : Event) (db db' : Store) : Type 0 where
  unchanged : db'.entries ≡ db.entries → CreditEffect env now event db db'
  once : IsCredit env now event db db' → CreditEffect env now event db db'

module _ (env : Environment) (now : ℕ) (event : Event) (db db' : Store) (d : PurchaseDecision) where
  owner_effect :
      (product : Product) (o : Option Owner)
      → product_of env event ≡ some product
      → objection event false product ≡ none
      → find_owner env event.owner_uuid db ≡ o
      → credit_owner env now event product o db ≡ ok d db'
      → CreditEffect env now event db db'
  unfolding credit_owner
  owner_effect product none listed fine owned h =
      unchanged (quarantine-entries env event Reason.unknown_or_deleted_owner db db' d h)
  owner_effect product (some owner) listed fine owned h =
      once (credit-IsCredit env now event db db' d product owner listed fine owned h)

  product_effect :
      (conflict : Bool) (product : Product) (o : Option Reason)
      → product_of env event ≡ some product
      → objection event conflict product ≡ o
      → decide_product env now event product o db ≡ ok d db'
      → CreditEffect env now event db db'
  unfolding decide_product objection ◌>>=◌
  product_effect conflict product (some reason) listed why h =
      unchanged (quarantine-entries env event reason db db' d h)
  product_effect true product none listed why h = absurd (cc why)
  product_effect false product none listed why h =
      owner_effect product (find_owner env event.owner_uuid db) listed why refl h

  pub decide_effect :
      (conflict : Bool) (o : Option Product)
      → product_of env event ≡ o
      → decide env now event conflict o db ≡ ok d db'
      → CreditEffect env now event db db'
  unfolding decide
  decide_effect conflict none listed h = unchanged (quarantine-entries env event _ db db' d h)
  decide_effect conflict (some product) listed h =
      product_effect conflict product (objection event conflict product) listed refl h
