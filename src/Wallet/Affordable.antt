-- ===== src/Wallet/Affordable.antt =====
-- When `unlock_episode` of backend/apps/wallet/services.py succeeds.
use shortform_streaming.Prelude.{
  ℕ, ◌≡◌, ◌≤◌, true, ◌&&◌, Bool, none, some, List, [], ◌∷◌, arith, inl, inr, find, any, ◌==◌,
  is_some, find_holds, ==_refl, is_just,
}
use shortform_streaming.Prelude.Int.{pos, neg_ℕ, ◌+ℤ◌, ◌≤ℤ◌}
use shortform_streaming.Model.{
  UserProfile, Wallet, Kind, CoinUnlock, LoadedEpisode, Environment, Error, Store, ok, err, ◌>>=◌,
  Outcome-cases, max_entry_coins, max_balance_coins,
}
use shortform_streaming.Catalog.Episodes.{episode_is_eligible, lock_episode_by_public_id}
use shortform_streaming.Accounts.{current_profile, lock_current_profile}
use shortform_streaming.Entitlements.Policy.{
  lock, LockReason, evaluate_authorize_access, resolve_episode_policy, coin_spending_enabled,
  entitlement_source,
}
use shortform_streaming.Wallet.Ledger.{
  balance, wallet_balance, is_attached, accepts_entry, create_entry, create_unlock, accepts_unlock,
  wallet_of, find_unlock, find_cancellation, has_debit, charge_has_entry,
}
use shortform_streaming.Wallet.Unlocks.{
  UnlockRequest, offer_holds, profile_unlock, profile_cancellation, new_receipt, settle,
  unlock_episode,
}
use shortform_streaming.Wallet.Locking.{locking_known}

module _ {ℓ} {A : Type ℓ} where
  -- A row that a query finds answers any `exists()` that it meets.
  any-met :
      (p q : A → Bool) (xs : List A) (x : A) → find p xs ≡ some x → q x ≡ true → any q xs ≡ true
  any-met p q [] x found met = absurd (cc found)
  any-met p q (y ∷ ys) x found met = ground (arith, any-met p q ys x)

wallet_attached :
    (p : UserProfile) (w : Wallet) (db : Store)
    → wallet_of p db ≡ some w
    → is_attached w.pk db ≡ true
unfolding wallet_of is_attached
wallet_attached p w db owned =
    any-met (λ x. is_just p.pk x.user_profile) (λ x. x.pk == w.pk && is_some x.user_profile)
      db.wallets w owned
      (ground
        (arith, ==_refl w.pk, find_holds (λ x. is_just p.pk x.user_profile) db.wallets w owned))

debit_accepted :
    (w : ℕ) (price : ℕ) (db : Store)
    → is_attached w db ≡ true
    → 1 ≤ price
    → price ≤ max_entry_coins
    → pos price ≤ℤ balance w db.entries
    → balance w db.entries ≤ℤ pos max_balance_coins
    → accepts_entry w Kind.unlock (neg_ℕ price) db ≡ true
unfolding accepts_entry ◌+ℤ◌
debit_accepted w price db attached low high covered bounded = ground (arith, attached)

-- What an unlock needs to be paid.
pub record IsAffordable (env : Environment) (now later : ℕ) (profile p : UserProfile)
    (e : LoadedEpisode) (w : Wallet) (r : UnlockRequest) (db : Store) : Type 0 where
  pub current : current_profile env profile db ≡ some p
  pub enabled : coin_spending_enabled env ≡ true
  pub not_cancelled : profile_cancellation p r.request_id db ≡ none
  pub new : profile_unlock p r.request_id db ≡ none
  pub found : lock_episode_by_public_id db r.episode_id ≡ some e
  pub eligible : episode_is_eligible env.settings db now e ≡ true
  pub owned : wallet_of p db ≡ some w
  pub reasons : List LockReason
  pub locked : evaluate_authorize_access env db later e (some p) ≡ lock reasons
  pub priced : (resolve_episode_policy env e).coin_price ≡ some r.expected_coin_price
  pub offered : offer_holds (resolve_episode_policy env e) r.expected_coin_price r ≡ true
  pub positive : 1 ≤ r.expected_coin_price
  pub bounded_price : r.expected_coin_price ≤ max_entry_coins
  pub covered : pos r.expected_coin_price ≤ℤ balance w.pk db.entries
  pub bounded : balance w.pk db.entries ≤ℤ pos max_balance_coins

module _ (env : Environment) (now later : ℕ) (profile p : UserProfile) (e : LoadedEpisode)
    (w : Wallet) (r : UnlockRequest) (db : Store)
    (h : IsAffordable env now later profile p e w r db) where
  not_entitled : entitlement_source db p e.pk ≡ none
  unfolding evaluate_authorize_access
  not_entitled = ground (arith, h.locked)

  paid_balance :
      (u : CoinUnlock) (db' : Store)
      → new_receipt env later p w e r (lock h.reasons) db ≡ ok u db'
      → balance w.pk db'.entries ≡ neg_ℕ r.expected_coin_price +ℤ balance w.pk db.entries
  unfolding new_receipt ◌>>=◌ create_entry create_unlock balance wallet_balance
  paid_balance u db' done = ground (arith, ==_refl w.pk, h.priced)

  never_refused : (x : Error) → new_receipt env later p w e r (lock h.reasons) db ≡ err x → ⊥
  unfolding new_receipt ◌>>=◌ create_entry create_unlock accepts_unlock accepts_entry is_attached
      find_unlock find_cancellation profile_unlock profile_cancellation wallet_balance has_debit
      charge_has_entry entitlement_source offer_holds wallet_of
  never_refused x failed =
      let attached = wallet_attached p w db h.owned in
      let accepted =
        debit_accepted w.pk r.expected_coin_price db attached h.positive h.bounded_price h.covered
          h.bounded in
      ground (
        arith,
        attached,
        accepted,
        not_entitled,
        h.priced,
        h.offered,
        h.covered,
        h.owned,
        h.new,
        h.not_cancelled,
        h.positive,
        ==_refl w.pk,
        ==_refl r.expected_coin_price,
      )

  unlocks :
      (u : CoinUnlock) (db' : Store)
      → new_receipt env later p w e r (lock h.reasons) db ≡ ok u db'
      → unlock_episode env now later profile r db ≡ ok (u, wallet_balance db' w) db'
  unfolding unlock_episode lock_current_profile settle ◌>>=◌
  unlocks u db' done = ground (
    arith,
    done,
    h.current,
    h.enabled,
    h.not_cancelled,
    h.new,
    h.found,
    h.eligible,
    h.locked,
    locking_known p db w h.owned,
  )

  -- A first request for a locked episode at the offered price is served: if the profile is current
  -- and its wallet covers the price, the unlock commits with the balance less the price.
  pub unlock_episode-IsAffordable :
      (u : CoinUnlock) × (db' : Store) × (unlock_episode env now later profile r db
        ≡ ok (u, neg_ℕ r.expected_coin_price +ℤ balance w.pk db.entries) db')
  unfolding wallet_balance
  unlock_episode-IsAffordable =
      elim (Outcome-cases (new_receipt env later p w e r (lock h.reasons) db)) [
        | inr (x, failed) ↦ absurd (never_refused x failed)
        | inl (u, db', done) ↦ (u, db', rw (← paid_balance u db' done) (unlocks u db' done))
      ]
