-- ===== src/Wallet/Charging.antt =====
-- The effect of `unlock_episode` of backend/apps/wallet/services.py.
use shortform_streaming.Prelude.{
  ℕ, ◌≡◌, ◌≢◌, refl, ◌∙◌, ap, sym, Bool, true, false, ◌||◌, Option, none, some, List, arith,
}
use shortform_streaming.Prelude.Int.{ℤ, pos, neg_ℕ, ◌+ℤ◌, ◌≤ℤ◌}
use shortform_streaming.Model.{
  UserProfile, Wallet, CoinUnlock, LoadedEpisode, Environment, Store, EntitlementSource, ok, ◌>>=◌,
}
use shortform_streaming.Catalog.Episodes.{lock_episode_by_public_id}
use shortform_streaming.Accounts.{current_profile}
use shortform_streaming.Entitlements.Policy.{
  AuthorizeAccess, ineligible, grant, lock, GrantSource, LockReason, resolve_episode_policy,
  entitlement_source, evaluate_authorize_access, episode_is_free,
}
use shortform_streaming.Entitlements.Decisions.{is_entitled, access_decision}
use shortform_streaming.Wallet.Ledger.{balance, wallet_balance, create_entry, create_unlock}
use shortform_streaming.Wallet.Unlocks.{
  UnlockRequest, is_ineligible, is_grant, profile_unlock, new_receipt, settle, unlock_episode,
}
use shortform_streaming.Wallet.Locking.{SameTables, locking-SameTables}
use shortform_streaming.Wallet.Runs.{unlock_episode-UnlockRun}

-- The unlock was paid for: the offer's price is debited from the wallet of the receipt, which
-- covered it, and the profile is entitled to the episode.
pub record IsPaid (env : Environment) (p : UserProfile) (e : LoadedEpisode) (r : UnlockRequest)
    (db db' : Store) (u : CoinUnlock) : Type 0 where
  pub price : (resolve_episode_policy env e).coin_price ≡ some r.expected_coin_price
  pub charged : u.charged_coins ≡ r.expected_coin_price
  pub covered : pos r.expected_coin_price ≤ℤ balance u.wallet db.entries
  pub debited :
      balance u.wallet db'.entries ≡ neg_ℕ r.expected_coin_price +ℤ balance u.wallet db.entries
  pub others : (v : ℕ) → v ≢ u.wallet → balance v db'.entries ≡ balance v db.entries
  pub entitled : entitlement_source db' p e.pk ≡ some EntitlementSource.coin

-- The unlock was free: the account could already watch.
pub record IsUncharged (db db' : Store) (u : CoinUnlock) : Type 0 where
  pub nothing : u.charged_coins ≡ 0
  pub no_entry : u.ledger_entry ≡ none
  pub same_entries : db'.entries ≡ db.entries
  pub same_entitlements : db'.entitlements ≡ db.entitlements

module _ (env : Environment) (later : ℕ) (p : UserProfile) (w : Wallet) (e : LoadedEpisode)
    (r : UnlockRequest) (db db' : Store) (u : CoinUnlock) where
  lock_charges :
      (reasons : List LockReason)
      → new_receipt env later p w e r (lock reasons) db ≡ ok u db'
      → IsPaid env p e r db db' u
  unfolding new_receipt ◌>>=◌ create_entry create_unlock balance wallet_balance entitlement_source
  lock_charges reasons h = record {
    price = ground arith;
    charged = ground arith;
    covered = ground arith;
    debited = ground arith;
    others = λ v ne. ground arith;
    entitled = ground arith;
  }

  grant-IsUncharged :
      (source : GrantSource)
      → new_receipt env later p w e r (grant source) db ≡ ok u db'
      → IsUncharged db db' u
  unfolding new_receipt ◌>>=◌ create_unlock
  grant-IsUncharged source h = ground arith

-- The profile is entitled to the episode, or the episode is free.
abbrev pub may_watch : Environment → Store → UserProfile → LoadedEpisode → Bool
may_watch env db p e = is_entitled db (some p) e.pk || episode_is_free env e

-- What a committed unlock has done.
pub data UnlockEffect (env : Environment) (p : UserProfile) (e : LoadedEpisode) (r : UnlockRequest)
    (db db' : Store) (u : CoinUnlock) : Type 0 where
  replayed :
      profile_unlock p r.request_id db ≡ some u
      → may_watch env db p e ≡ true
      → db'.entries ≡ db.entries
      → db'.unlocks ≡ db.unlocks
      → db'.entitlements ≡ db.entitlements
      → UnlockEffect env p e r db db' u
  uncharged :
      profile_unlock p r.request_id db ≡ none
      → may_watch env db p e ≡ true
      → IsUncharged db db' u
      → UnlockEffect env p e r db db' u
  paid :
      profile_unlock p r.request_id db ≡ none
      → may_watch env db p e ≡ false
      → IsPaid env p e r db db' u
      → UnlockEffect env p e r db db' u

module _ {db mid db' : Store} {u : CoinUnlock} (t : SameTables db mid) where
  IsUncharged-from : IsUncharged mid db' u → IsUncharged db db' u
  IsUncharged-from h = record {
    nothing = h.nothing;
    no_entry = h.no_entry;
    same_entries = h.same_entries ∙ t.same_entries;
    same_entitlements = h.same_entitlements ∙ t.same_entitlements;
  }

  IsPaid-from :
      {env : Environment} {p : UserProfile} {e : LoadedEpisode} {r : UnlockRequest}
      → IsPaid env p e r mid db' u
      → IsPaid env p e r db db' u
  IsPaid-from h = record {
    price = h.price;
    charged = h.charged;
    covered = rw t.same_entries at h.covered;
    debited = rw t.same_entries at h.debited;
    others = λ v ne. rw t.same_entries at (h.others v ne);
    entitled = h.entitled;
  }

same_source :
    (p : UserProfile) (episode : ℕ) {db mid : Store}
    → SameTables db mid
    → entitlement_source mid p episode ≡ entitlement_source db p episode
unfolding entitlement_source
same_source p episode t = rw t.same_entitlements refl

granted :
    (env : Environment) (later : ℕ) (p : UserProfile) (e : LoadedEpisode) (db mid : Store)
    → SameTables db mid
    → is_ineligible (evaluate_authorize_access env mid later e (some p)) ≡ false
    → is_grant (evaluate_authorize_access env mid later e (some p)) ≡ may_watch env db p e
granted env later p e db mid t i =
    let (refused, access) = access_decision env mid later e (some p) in
    let at_mid : is_grant (evaluate_authorize_access env mid later e (some p))
        ≡ may_watch env mid p e =
      ground (arith, refused, access, i) in
    at_mid ∙ rw (same_source p e.pk t) refl

module _ (env : Environment) (later : ℕ) (p : UserProfile) (w : Wallet) (e : LoadedEpisode)
    (r : UnlockRequest) (db mid db' : Store) (u : CoinUnlock) (t : SameTables db mid) where
  settle_effect :
      (decision : AuthorizeAccess) (o : Option CoinUnlock)
      → is_ineligible decision ≡ false
      → is_grant decision ≡ may_watch env db p e
      → profile_unlock p r.request_id db ≡ o
      → settle env later p w e r decision o mid ≡ ok u db'
      → UnlockEffect env p e r db db' u
  unfolding settle ◌>>=◌
  settle_effect decision (some v) i access known h =
      let same : v ≡ u = ground arith in
      let repeated : is_grant decision ≡ true = ground arith in
      let unchanged : mid ≡ db' = ground arith in
      replayed (known ∙ ap some same) (sym access ∙ repeated) (rw (← unchanged) t.same_entries)
        (rw (← unchanged) t.same_unlocks) (rw (← unchanged) t.same_entitlements)
  settle_effect (grant source) none i access known h =
      uncharged known (sym access)
        (IsUncharged-from t (grant-IsUncharged env later p w e r mid db' u source h))
  settle_effect (lock reasons) none i access known h =
      paid known (sym access) (IsPaid-from t (lock_charges env later p w e r mid db' u reasons h))
  settle_effect ineligible none i access known h = absurd (cc i)

-- A committed unlock has found a current profile and the episode, and did one of three things. For
-- a profile that is entitled to the episode, or for a free episode, it repeated the stored receipt
-- of this request and changed no entry, receipt or entitlement, or, without one, gave a receipt for
-- nothing. For a locked episode without a receipt it debited the wallet, which
-- covered the price in force, by exactly this price, touched no other wallet, and created the
-- entitlement.
pub unlock_episode_effect :
    (env : Environment) (now later : ℕ) (profile : UserProfile) (r : UnlockRequest) (db db' : Store)
    (u : CoinUnlock) (b : ℤ)
    → unlock_episode env now later profile r db ≡ ok (u, b) db'
    → (p : UserProfile) × (e : LoadedEpisode) × (current_profile env profile db ≡ some p)
      × (lock_episode_by_public_id db r.episode_id ≡ some e)
      × UnlockEffect env p e r db db' u
unlock_episode_effect env now later profile r db db' u b h =
    let run = unlock_episode-UnlockRun env now later profile r db db' u b h in
    (
      run.p,
      run.e,
      run.current,
      run.locked,
      settle_effect env later run.p run.w run.e r db run.mid db' u
          (locking-SameTables run.p db run.wallet_locked) _ _ run.not_ineligible
          (granted env later run.p run.e db run.mid (locking-SameTables run.p db run.wallet_locked)
            run.not_ineligible)
          refl run.settled,
    )
