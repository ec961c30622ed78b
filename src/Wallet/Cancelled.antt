-- ===== src/Wallet/Cancelled.antt =====
-- A request of backend/apps/wallet/services.py after its cancellation.
use shortform_streaming.Prelude.{ℕ, ◌≡◌, refl, ◌∙◌, Option, none, some, arith, ==_refl}
use shortform_streaming.Prelude.Int.{ℤ}
use shortform_streaming.Model.{
  UserProfile, Wallet, CoinUnlockCancellation, Environment, Store, Error, ok, err, ◌>>=◌,
}
use shortform_streaming.Accounts.{lock_current_profile}
use shortform_streaming.Wallet.Ledger.{create_cancellation, find_cancellation, wallet_of}
use shortform_streaming.Wallet.Unlocks.{
  UnlockRequest, Resolution, cancelled, profile_cancellation, unlock_episode, find_resolution,
  resolution_of, resolve_unlock,
}
use shortform_streaming.Wallet.Locking.{locking-SameTables, wallet_of-locked, same_current}
use shortform_streaming.Wallet.Runs.{resolve_unlock-ResolveRun}

-- The store after a cancellation of the key `request` under the wallet `w`.
module _ (w : Wallet) (r : UnlockRequest) (mid db' : Store) (c : CoinUnlockCancellation) where
  resolution_stores :
      (o : Option Resolution)
      → find_resolution w.pk r.request_id mid ≡ o
      → resolution_of w r o mid ≡ ok (cancelled c) db'
      → (find_cancellation w.pk r.request_id db' ≡ some c)
        × (db'.profiles ≡ mid.profiles)
        × (db'.deletions ≡ mid.deletions)
        × (db'.wallets ≡ mid.wallets)
  unfolding find_resolution resolution_of create_cancellation find_cancellation ◌>>=◌
  resolution_stores none known h = ground (arith, ==_refl w.pk, ==_refl r.request_id)
  resolution_stores (some x) known h = ground arith

-- A request that was resolved as cancelled never completes: in the store that the resolution left,
-- every unlock of this account under the same key is refused, whatever it asks for and whenever.
pub cancelled_never_completes :
    (env : Environment) (profile : UserProfile) (r : UnlockRequest) (db db' : Store)
    (c : CoinUnlockCancellation) (b : ℤ)
    → resolve_unlock env profile r db ≡ ok (cancelled c, b) db'
    → (now later : ℕ) (r' : UnlockRequest) → r'.request_id ≡ r.request_id
    → unlock_episode env now later profile r' db' ≡ err Error.coin_unavailable
unfolding unlock_episode lock_current_profile profile_cancellation wallet_of ◌>>=◌
cancelled_never_completes env profile r db db' c b h now later r' key =
    let run = resolve_unlock-ResolveRun env profile r db db' (cancelled c) b h in
    let (stored, profiles, deletions, wallets) =
      resolution_stores run.w r run.mid db' c _ refl run.resolved in
    let t = locking-SameTables run.p db run.wallet_locked in
    let cur =
      same_current env profile db db' (profiles ∙ t.same_profiles) (deletions ∙ t.same_deletions)
      ∙ run.current in
    let found = wallet_of-locked run.p db run.wallet_locked in
    ground (arith, cur, found, wallets, stored)
