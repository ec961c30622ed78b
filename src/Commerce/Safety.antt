-- ===== src/Commerce/Safety.antt =====
-- Fulfilment (backend/apps/commerce/services.py) and the range of the balances.
use shortform_streaming.Prelude.{ℕ, Bool, true, false, Option, none, some}
use shortform_streaming.Model.{
  UserProfile, Wallet, PurchaseIdentity, ApplicationBinding, PurchaseDecision, PurchaseEvent,
  Reason, Product, Event, Environment, Keeps,
}
use shortform_streaming.Wallet.Balance.{IsLedgerSafe, wallet_rules}
use shortform_streaming.Commerce.Decisions.{
  Owner, create_decision, quarantine, credit, credit_owner, decide_product, decide, decision_for,
}
use shortform_streaming.Commerce.Identities.{
  or_new_identity, purchase_identity, bind_application, scoped_application, resolve_application,
}
use shortform_streaming.Commerce.Fulfilment.{deliver, or_deliver, fulfill}

or_new_identity-IsLedgerSafe :
    (w : Wallet) (o : Option PurchaseIdentity) → Keeps IsLedgerSafe (or_new_identity w o)
unfolding or_new_identity
or_new_identity-IsLedgerSafe w (some i) = search wallet_rules
or_new_identity-IsLedgerSafe w none = search wallet_rules depth 20

-- Opening a purchase identity keeps every balance in range.
pub purchase_identity-IsLedgerSafe :
    (env : Environment) (profile : UserProfile) → Keeps IsLedgerSafe (purchase_identity env profile)
unfolding purchase_identity
purchase_identity-IsLedgerSafe env profile =
    search (wallet_rules, or_new_identity-IsLedgerSafe) depth 20

bind_application-IsLedgerSafe :
    (event : Event) (scope : Product) (known : Option ApplicationBinding) (taken : Bool)
    → Keeps IsLedgerSafe (bind_application event scope known taken)
unfolding bind_application
bind_application-IsLedgerSafe event scope (some b) taken = search wallet_rules
bind_application-IsLedgerSafe event scope none true = search wallet_rules
bind_application-IsLedgerSafe event scope none false = search wallet_rules depth 20

scoped_application-IsLedgerSafe :
    (env : Environment) (event : Event) (scope : Option Product)
    → Keeps IsLedgerSafe (scoped_application env event scope)
unfolding scoped_application
scoped_application-IsLedgerSafe env event none = search wallet_rules
scoped_application-IsLedgerSafe env event (some scope) =
    search (wallet_rules, bind_application-IsLedgerSafe) depth 20

create_decision-IsLedgerSafe : (d : PurchaseDecision) → Keeps IsLedgerSafe (create_decision d)
unfolding create_decision
create_decision-IsLedgerSafe d = search wallet_rules depth 20

quarantine-IsLedgerSafe :
    (env : Environment) (event : Event) (reason : Reason)
    → Keeps IsLedgerSafe (quarantine env event reason)
unfolding quarantine
quarantine-IsLedgerSafe env event reason =
    search (wallet_rules, create_decision-IsLedgerSafe) depth 20

credit-IsLedgerSafe :
    (env : Environment) (now : ℕ) (event : Event) (product : Product) (owner : Owner)
    → Keeps IsLedgerSafe (credit env now event product owner)
unfolding credit
credit-IsLedgerSafe env now event product owner =
    search (wallet_rules, create_decision-IsLedgerSafe) depth 20

credit_owner-IsLedgerSafe :
    (env : Environment) (now : ℕ) (event : Event) (product : Product) (o : Option Owner)
    → Keeps IsLedgerSafe (credit_owner env now event product o)
unfolding credit_owner
credit_owner-IsLedgerSafe env now event product none = quarantine-IsLedgerSafe env event _
credit_owner-IsLedgerSafe env now event product (some o) =
    credit-IsLedgerSafe env now event product o

decide_product-IsLedgerSafe :
    (env : Environment) (now : ℕ) (event : Event) (product : Product) (o : Option Reason)
    → Keeps IsLedgerSafe (decide_product env now event product o)
unfolding decide_product
decide_product-IsLedgerSafe env now event product (some reason) =
    quarantine-IsLedgerSafe env event reason
decide_product-IsLedgerSafe env now event product none =
    search (wallet_rules, credit_owner-IsLedgerSafe) depth 20

decide-IsLedgerSafe :
    (env : Environment) (now : ℕ) (event : Event) (conflict : Bool) (o : Option Product)
    → Keeps IsLedgerSafe (decide env now event conflict o)
unfolding decide
decide-IsLedgerSafe env now event conflict none = quarantine-IsLedgerSafe env event _
decide-IsLedgerSafe env now event conflict (some product) =
    decide_product-IsLedgerSafe env now event product _

module _ (env : Environment) (now : ℕ) (event : Event) where
  decision_for-IsLedgerSafe :
      (resolved : Option Event) (conflict : Bool) (fallback stored : Option PurchaseDecision)
      → Keeps IsLedgerSafe (decision_for env now event resolved conflict fallback stored)
  unfolding decision_for
  decision_for-IsLedgerSafe resolved conflict (some d) stored = search wallet_rules
  decision_for-IsLedgerSafe resolved conflict none (some d) = search wallet_rules
  decision_for-IsLedgerSafe none conflict none none = quarantine-IsLedgerSafe env event _
  decision_for-IsLedgerSafe (some e) conflict none none = decide-IsLedgerSafe env now e conflict _

  resolve_application-IsLedgerSafe : Keeps IsLedgerSafe (resolve_application env event)
  unfolding resolve_application
  resolve_application-IsLedgerSafe = scoped_application-IsLedgerSafe env event _

  deliver-IsLedgerSafe : Keeps IsLedgerSafe (deliver env now event)
  unfolding deliver
  deliver-IsLedgerSafe =
      search (wallet_rules, resolve_application-IsLedgerSafe, decision_for-IsLedgerSafe) depth 30

  or_deliver-IsLedgerSafe :
      (o : Option PurchaseEvent) → Keeps IsLedgerSafe (or_deliver env now event o)
  unfolding or_deliver
  or_deliver-IsLedgerSafe (some seen) = search wallet_rules
  or_deliver-IsLedgerSafe none = deliver-IsLedgerSafe

  -- Fulfilling an event keeps every balance in range.
  pub fulfill-IsLedgerSafe : Keeps IsLedgerSafe (fulfill env now event)
  unfolding fulfill
  fulfill-IsLedgerSafe = search (wallet_rules, or_deliver-IsLedgerSafe) depth 20
