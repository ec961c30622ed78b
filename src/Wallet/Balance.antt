-- ===== src/Wallet/Balance.antt =====
-- The range of the balances under the services of backend/apps/wallet/services.py.
use shortform_streaming.Prelude.{
  ℕ, ◌≡◌, refl, subst, true, Option, none, some, List, ◌∷◌, arith, ◌==◌, ==_iff, Bool-cases, inl,
  inr,
}
use shortform_streaming.Prelude.Int.{ℤ, pos, ◌+ℤ◌, ◌≤ℤ◌, +ℤ_parts}
use shortform_streaming.Model.{
  UserProfile, Wallet, Kind, CoinLedgerEntry, modify, fresh, Keeps-bind, Keeps-pure, CoinUnlock,
  CoinUnlockCancellation, LoadedEpisode, EntitlementSource, Environment, Store, Error, Action,
  Outcome, ok, err, Keeps, Keeps-modify, keeps_rules, ◌>>=◌, max_balance_coins, After,
}
use shortform_streaming.Accounts.{lock_current_profile}
use shortform_streaming.Entitlements.Policy.{AuthorizeAccess, ineligible, grant, lock}
use shortform_streaming.Wallet.Ledger.{
  balance, in_balance_range, accepts_entry, create_entry, create_unlock, create_cancellation,
  or_new_wallet, get_or_create_wallet,
}
use shortform_streaming.Wallet.Unlocks.{
  UnlockRequest, Resolution, create_entitlement, charge, new_receipt, settle, unlock_episode,
  resolution_of, resolve_unlock,
}

-- The balance of every wallet is in range.
pub record IsLedgerSafe (db : Store) : Type 0 where
  pub nonneg : (w : ℕ) → pos 0 ≤ℤ balance w db.entries
  pub bounded : (w : ℕ) → balance w db.entries ≤ℤ pos max_balance_coins

module _ (w : ℕ) (amount : ℤ) (es : List CoinLedgerEntry) where
  accepted_range :
      in_balance_range (balance w es +ℤ amount) ≡ true
      → (pos 0 ≤ℤ amount +ℤ balance w es) × (amount +ℤ balance w es ≤ℤ pos max_balance_coins)
  accepted_range h = ground (arith, +ℤ_parts amount (balance w es), +ℤ_parts (balance w es) amount)

module _ (db : Store) (h : IsLedgerSafe db) (e : CoinLedgerEntry) where
  cons_range :
      (v : ℕ)
      → in_balance_range (balance e.wallet db.entries +ℤ e.amount) ≡ true
      → (pos 0 ≤ℤ balance v (e ∷ db.entries))
        × (balance v (e ∷ db.entries) ≤ℤ pos max_balance_coins)
  unfolding balance
  cons_range v ok_range = elim (Bool-cases (e.wallet == v)) [
    | inl same ↦
        let eq : e.wallet ≡ v = (==_iff e.wallet v).0 same in
        rw same (
          accepted_range v e.amount db.entries
            (subst (λ u. in_balance_range (balance u db.entries +ℤ e.amount) ≡ true) eq ok_range))
    | inr other ↦ rw other (h.nonneg v, h.bounded v)
  ]

pub create_entry-IsLedgerSafe :
    (now : ℕ) (w : Wallet) (reference : ℕ) (kind : Kind) (amount : ℤ)
    → Keeps IsLedgerSafe (create_entry now w reference kind amount)
unfolding create_entry ◌>>=◌
create_entry-IsLedgerSafe now w reference kind amount = record {
  at = λ db h. elim (Bool-cases (accepts_entry w.pk kind amount db)) [
    | inl e ↦
        let entry : CoinLedgerEntry = record {
          pk = db.next_id;
          wallet = w.pk;
          reference = reference;
          kind = kind;
          amount = amount;
          created_at = now;
        } in
        let range = λ (v : ℕ). cons_range db h entry v (unfold accepts_entry in ground arith) in
        rw e (record { nonneg = λ v. (range v).0; bounded = λ v. (range v).1 })
    | inr e ↦ rw e tt
  ];
}

-- A change of other tables keeps the balances.
pub same_entries : (db db' : Store) → db'.entries ≡ db.entries → IsLedgerSafe db → IsLedgerSafe db'
same_entries db db' e h = record { nonneg = rw e h.nonneg; bounded = rw e h.bounded }

pub Keeps-same_entries :
    (f : Store → Store) → ((s : Store) → (f s).entries ≡ s.entries) → Keeps IsLedgerSafe (modify f)
Keeps-same_entries f e = Keeps-modify f (λ s h. same_entries s (f s) (e s) h)

pub fresh-IsLedgerSafe : Keeps IsLedgerSafe fresh
unfolding fresh
fresh-IsLedgerSafe = record { at = λ s h. record { nonneg = h.nonneg; bounded = h.bounded } }

pub lock_current_profile-IsLedgerSafe :
    (env : Environment) (p : UserProfile) → Keeps IsLedgerSafe (lock_current_profile env p)
unfolding lock_current_profile
lock_current_profile-IsLedgerSafe env p = search keeps_rules

pub or_new_wallet-IsLedgerSafe :
    (p : UserProfile) (o : Option Wallet) → Keeps IsLedgerSafe (or_new_wallet p o)
unfolding or_new_wallet
or_new_wallet-IsLedgerSafe p (some w) = search keeps_rules
or_new_wallet-IsLedgerSafe p none =
    Keeps-bind fresh-IsLedgerSafe
      (λ pk. Keeps-bind (Keeps-same_entries _ (λ s. refl)) (λ _. Keeps-pure _))

pub ruleset basic_rules = (
  keeps_rules, fresh-IsLedgerSafe, lock_current_profile-IsLedgerSafe, create_entry-IsLedgerSafe,
  or_new_wallet-IsLedgerSafe, Keeps-same_entries, refl,
)

pub get_or_create_wallet-IsLedgerSafe :
    (p : UserProfile) → Keeps IsLedgerSafe (get_or_create_wallet p)
unfolding get_or_create_wallet
get_or_create_wallet-IsLedgerSafe p = search basic_rules

pub create_unlock-IsLedgerSafe : (u : CoinUnlock) → Keeps IsLedgerSafe (create_unlock u)
unfolding create_unlock
create_unlock-IsLedgerSafe u = search basic_rules

pub create_cancellation-IsLedgerSafe :
    (c : CoinUnlockCancellation) → Keeps IsLedgerSafe (create_cancellation c)
unfolding create_cancellation
create_cancellation-IsLedgerSafe c = search basic_rules

pub create_entitlement-IsLedgerSafe :
    (p : UserProfile) (episode : ℕ) (source : EntitlementSource)
    → Keeps IsLedgerSafe (create_entitlement p episode source)
unfolding create_entitlement
create_entitlement-IsLedgerSafe p episode source = search basic_rules

pub ruleset wallet_rules = (
  basic_rules, get_or_create_wallet-IsLedgerSafe, create_unlock-IsLedgerSafe,
  create_cancellation-IsLedgerSafe, create_entitlement-IsLedgerSafe,
)

module _ (env : Environment) (later : ℕ) (p : UserProfile) (w : Wallet) (e : LoadedEpisode)
    (r : UnlockRequest) where
  charge-IsLedgerSafe : Keeps IsLedgerSafe (charge env later p w e r)
  unfolding charge
  charge-IsLedgerSafe = search wallet_rules depth 20

  new_receipt-IsLedgerSafe :
      (decision : AuthorizeAccess) → Keeps IsLedgerSafe (new_receipt env later p w e r decision)
  unfolding new_receipt
  new_receipt-IsLedgerSafe (grant source) = search wallet_rules
  new_receipt-IsLedgerSafe ineligible = search (wallet_rules, charge-IsLedgerSafe)
  new_receipt-IsLedgerSafe (lock reasons) = search (wallet_rules, charge-IsLedgerSafe)

  settle-IsLedgerSafe :
      (decision : AuthorizeAccess) (o : Option CoinUnlock)
      → Keeps IsLedgerSafe (settle env later p w e r decision o)
  unfolding settle
  settle-IsLedgerSafe decision none = new_receipt-IsLedgerSafe decision
  settle-IsLedgerSafe decision (some u) = search wallet_rules

-- Unlocking an episode keeps every balance in range.
pub unlock_episode-IsLedgerSafe :
    (env : Environment) (now later : ℕ) (profile : UserProfile) (r : UnlockRequest)
    → Keeps IsLedgerSafe (unlock_episode env now later profile r)
unfolding unlock_episode
unlock_episode-IsLedgerSafe env now later profile r =
    search (wallet_rules, settle-IsLedgerSafe) depth 40

resolution_of-IsLedgerSafe :
    (w : Wallet) (r : UnlockRequest) (o : Option Resolution)
    → Keeps IsLedgerSafe (resolution_of w r o)
unfolding resolution_of
resolution_of-IsLedgerSafe w r none = search wallet_rules
resolution_of-IsLedgerSafe w r (some x) = search wallet_rules

-- Resolving a request keeps every balance in range.
pub resolve_unlock-IsLedgerSafe :
    (env : Environment) (profile : UserProfile) (r : UnlockRequest)
    → Keeps IsLedgerSafe (resolve_unlock env profile r)
unfolding resolve_unlock
resolve_unlock-IsLedgerSafe env profile r =
    search (wallet_rules, resolution_of-IsLedgerSafe) depth 40
