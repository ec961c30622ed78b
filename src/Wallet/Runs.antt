-- ===== src/Wallet/Runs.antt =====
-- The steps of a committed call of backend/apps/wallet/services.py.
use shortform_streaming.Prelude.{ℕ, ◌≡◌, true, false, none, some, arith, inl, inr, Option-cases}
use shortform_streaming.Prelude.Int.{ℤ}
use shortform_streaming.Model.{
  UserProfile, Wallet, CoinUnlock, LoadedEpisode, Environment, Store, ok, ◌>>=◌, Outcome-cases,
}
use shortform_streaming.Catalog.Episodes.{episode_is_eligible, lock_episode_by_public_id}
use shortform_streaming.Accounts.{current_profile, lock_current_profile}
use shortform_streaming.Entitlements.Policy.{evaluate_authorize_access, coin_spending_enabled}
use shortform_streaming.Wallet.Ledger.{wallet_balance, get_or_create_wallet}
use shortform_streaming.Wallet.Unlocks.{
  UnlockRequest, is_ineligible, existing_differs, profile_unlock, profile_cancellation, settle,
  unlock_episode, Resolution, find_resolution, resolution_of, resolve_unlock,
}

-- `p` is the current profile, `e` the locked episode, `w` the wallet and `mid` the store once the
-- wallet is locked.
pub record UnlockRun (env : Environment) (now later : ℕ) (profile : UserProfile) (r : UnlockRequest)
    (db db' : Store) (u : CoinUnlock) (b : ℤ) : Type 0 where
  pub p : UserProfile
  pub e : LoadedEpisode
  pub w : Wallet
  pub mid : Store
  pub current : current_profile env profile db ≡ some p
  pub enabled : coin_spending_enabled env ≡ true
  pub not_cancelled : profile_cancellation p r.request_id db ≡ none
  pub same : existing_differs r (profile_unlock p r.request_id db) ≡ false
  pub locked : lock_episode_by_public_id db r.episode_id ≡ some e
  pub eligible : episode_is_eligible env.settings db now e ≡ true
  pub wallet_locked : get_or_create_wallet p db ≡ ok w mid
  pub not_ineligible : is_ineligible (evaluate_authorize_access env mid later e (some p)) ≡ false
  pub settled :
      settle env later p w e r
        (evaluate_authorize_access env mid later e (some p))
        (profile_unlock p r.request_id db)
        mid
      ≡ ok u db'
  pub reported : b ≡ wallet_balance db' w

pub unlock_episode-UnlockRun :
    (env : Environment) (now later : ℕ) (profile : UserProfile) (r : UnlockRequest) (db db' : Store)
    (u : CoinUnlock) (b : ℤ)
    → unlock_episode env now later profile r db ≡ ok (u, b) db'
    → UnlockRun env now later profile r db db' u b
unfolding unlock_episode lock_current_profile ◌>>=◌
unlock_episode-UnlockRun env now later profile r db db' u b h =
    elim (Option-cases (current_profile env profile db)) [
      | inl no_profile ↦ absurd (ground arith)
      | inr (p, cur) ↦ elim (Option-cases (lock_episode_by_public_id db r.episode_id)) [
        | inl no_episode ↦ absurd (ground arith)
        | inr (e, found) ↦ elim (Outcome-cases (get_or_create_wallet p db)) [
          | inr (x, failed) ↦ absurd (ground arith)
          | inl (w, mid, got) ↦ record {
            p = p;
            e = e;
            w = w;
            mid = mid;
            current = cur;
            enabled = ground arith;
            not_cancelled = ground arith;
            same = ground arith;
            locked = found;
            eligible = ground arith;
            wallet_locked = got;
            not_ineligible = ground arith;
            settled = ground arith;
            reported = ground arith;
          }
        ]
      ]
    ]

-- The steps of a request that is resolved.
pub record ResolveRun (env : Environment) (profile : UserProfile) (r : UnlockRequest)
    (db db' : Store) (x : Resolution) (b : ℤ) : Type 0 where
  pub p : UserProfile
  pub w : Wallet
  pub mid : Store
  pub current : current_profile env profile db ≡ some p
  pub wallet_locked : get_or_create_wallet p db ≡ ok w mid
  pub resolved : resolution_of w r (find_resolution w.pk r.request_id mid) mid ≡ ok x db'
  pub reported : b ≡ wallet_balance db' w

pub resolve_unlock-ResolveRun :
    (env : Environment) (profile : UserProfile) (r : UnlockRequest) (db db' : Store)
    (x : Resolution) (b : ℤ)
    → resolve_unlock env profile r db ≡ ok (x, b) db'
    → ResolveRun env profile r db db' x b
unfolding resolve_unlock lock_current_profile ◌>>=◌
resolve_unlock-ResolveRun env profile r db db' x b h =
    elim (Option-cases (current_profile env profile db)) [
      | inl no_profile ↦ absurd (ground arith)
      | inr (p, cur) ↦ elim (Outcome-cases (get_or_create_wallet p db)) [
        | inr (e, failed) ↦ absurd (ground arith)
        | inl (w, mid, got) ↦ record {
          p = p;
          w = w;
          mid = mid;
          current = cur;
          wallet_locked = got;
          resolved = ground arith;
          reported = ground arith;
        }
      ]
    ]
