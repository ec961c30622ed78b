-- ===== src/Wallet/Locking.antt =====
-- The lock of the wallet in backend/apps/wallet/services.py.
use shortform_streaming.Prelude.{ℕ, ◌≡◌, some, arith, ==_refl}
use shortform_streaming.Model.{UserProfile, Wallet, Environment, Store, ok, ◌>>=◌}
use shortform_streaming.Catalog.Episodes.{lock_episode_by_public_id}
use shortform_streaming.Accounts.{current_profile}
use shortform_streaming.Wallet.Ledger.{wallet_of, get_or_create_wallet}

-- The tables that an unlock reads, apart from the wallets, are the same.
pub record SameTables (db mid : Store) : Type 0 where
  pub same_profiles : mid.profiles ≡ db.profiles
  pub same_deletions : mid.deletions ≡ db.deletions
  pub same_series : mid.series ≡ db.series
  pub same_episodes : mid.episodes ≡ db.episodes
  pub same_entitlements : mid.entitlements ≡ db.entitlements
  pub same_entries : mid.entries ≡ db.entries
  pub same_unlocks : mid.unlocks ≡ db.unlocks
  pub same_cancellations : mid.cancellations ≡ db.cancellations

module _ (p : UserProfile) (db : Store) {w : Wallet} {mid : Store}
    (got : get_or_create_wallet p db ≡ ok w mid) where
  pub locking-SameTables : SameTables db mid
  unfolding get_or_create_wallet ◌>>=◌
  locking-SameTables = ground arith

  pub wallet_of-locked : wallet_of p mid ≡ some w
  unfolding get_or_create_wallet ◌>>=◌
  wallet_of-locked = ground (arith, ==_refl p.pk)

-- A profile whose wallet is known locks that wallet, and no table changes.
pub locking_known :
    (p : UserProfile) (db : Store) (w : Wallet)
    → wallet_of p db ≡ some w
    → get_or_create_wallet p db ≡ ok w db
unfolding get_or_create_wallet ◌>>=◌
locking_known p db w h = ground arith

-- Reads of tables that are the same.
pub same_current :
    (env : Environment) (profile : UserProfile) (db db' : Store)
    → db'.profiles ≡ db.profiles
    → db'.deletions ≡ db.deletions
    → current_profile env profile db' ≡ current_profile env profile db
unfolding current_profile
same_current env profile db db' e f = rw (e, f)

pub same_lock :
    (id : ℕ) (db db' : Store)
    → db'.series ≡ db.series
    → db'.episodes ≡ db.episodes
    → lock_episode_by_public_id db' id ≡ lock_episode_by_public_id db id
unfolding lock_episode_by_public_id
same_lock id db db' e f = rw (e, f)
