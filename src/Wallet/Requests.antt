-- ===== src/Wallet/Requests.antt =====
-- A request of backend/apps/wallet/services.py after its unlock has committed.
use shortform_streaming.Prelude.{
  ℕ, ◌≡◌, refl, ◌∙◌, ap, true, false, Option, none, some, arith, ==_refl,
}
use shortform_streaming.Prelude.Int.{ℤ}
use shortform_streaming.Model.{
  UserProfile, Wallet, CoinUnlock, LoadedEpisode, Environment, Store, ok, ◌>>=◌,
}
use shortform_streaming.Catalog.Episodes.{episode_is_eligible, lock_episode_by_public_id}
use shortform_streaming.Accounts.{current_profile, lock_current_profile}
use shortform_streaming.Entitlements.Policy.{AuthorizeAccess, grant, evaluate_authorize_access}
use shortform_streaming.Wallet.Ledger.{
  create_entry, create_unlock, accepts_unlock, wallet_of, get_or_create_wallet, find_unlock,
  find_cancellation,
}
use shortform_streaming.Wallet.Unlocks.{
  UnlockRequest, differs, is_grant, existing_differs, profile_unlock, profile_cancellation,
  new_receipt, settle, unlock_episode, completed, find_resolution, resolution_of, resolve_unlock,
}
use shortform_streaming.Wallet.Locking.{
  SameTables, locking-SameTables, wallet_of-locked, locking_known, same_current, same_lock,
}
use shortform_streaming.Wallet.Runs.{UnlockRun, unlock_episode-UnlockRun}

-- What a settled request leaves: its receipt under its key, and these tables as they were.
pub record IsSettled (w : Wallet) (r : UnlockRequest) (mid db' : Store) (u : CoinUnlock)
    : Type 0 where
  pub stored : find_unlock w.pk r.request_id db' ≡ some u
  pub same : existing_differs r (some u) ≡ false
  pub not_cancelled : find_cancellation w.pk r.request_id db' ≡ none
  pub same_wallets : db'.wallets ≡ mid.wallets
  pub same_profiles : db'.profiles ≡ mid.profiles
  pub same_deletions : db'.deletions ≡ mid.deletions
  pub same_series : db'.series ≡ mid.series
  pub same_episodes : db'.episodes ≡ mid.episodes
  pub same_cancellations : db'.cancellations ≡ mid.cancellations

module _ (env : Environment) (later : ℕ) (p : UserProfile) (w : Wallet) (e : LoadedEpisode)
    (r : UnlockRequest) (mid db' : Store) (u : CoinUnlock) where
  new_receipt-IsSettled :
      (decision : AuthorizeAccess)
      → new_receipt env later p w e r decision mid ≡ ok u db'
      → IsSettled w r mid db' u
  unfolding new_receipt create_entry create_unlock accepts_unlock find_unlock find_cancellation
      differs ◌>>=◌
  new_receipt-IsSettled (grant source) h = ground (
    arith,
    ==_refl w.pk,
    ==_refl r.request_id,
    ==_refl r.episode_id,
    ==_refl r.expected_policy_version,
    ==_refl r.expected_coin_price,
  )
  new_receipt-IsSettled _ h = ground (
    arith,
    ==_refl w.pk,
    ==_refl r.request_id,
    ==_refl r.episode_id,
    ==_refl r.expected_policy_version,
    ==_refl r.expected_coin_price,
  )

  settle-IsSettled :
      (decision : AuthorizeAccess) (o : Option CoinUnlock)
      → existing_differs r o ≡ false
      → ((v : CoinUnlock) → o ≡ some v → find_unlock w.pk r.request_id mid ≡ some v)
      → ((v : CoinUnlock) → o ≡ some v → find_cancellation w.pk r.request_id mid ≡ none)
      → settle env later p w e r decision o mid ≡ ok u db'
      → IsSettled w r mid db' u
  unfolding settle ◌>>=◌
  settle-IsSettled decision none i known clear h = new_receipt-IsSettled decision h
  settle-IsSettled decision (some v) i known clear h =
      let same : v ≡ u = ground arith in
      let unchanged : mid ≡ db' = ground arith in
      rw (← unchanged) (record {
        stored = known v refl ∙ ap some same;
        same = rw (← same) i;
        not_cancelled = clear v refl;
        same_wallets = refl;
        same_profiles = refl;
        same_deletions = refl;
        same_series = refl;
        same_episodes = refl;
        same_cancellations = refl;
      })

-- The receipt that the key's lookup found is that of the wallet which is locked.
locked_lookup :
    (p : UserProfile) (w : Wallet) (request : ℕ) (db mid : Store) (u : CoinUnlock)
    → get_or_create_wallet p db ≡ ok w mid
    → profile_unlock p request db ≡ some u
    → find_unlock w.pk request mid ≡ some u
unfolding profile_unlock get_or_create_wallet ◌>>=◌
locked_lookup p w request db mid u got known = ground arith

locked_clear :
    (p : UserProfile) (w : Wallet) (request : ℕ) (db mid : Store) (u : CoinUnlock)
    → get_or_create_wallet p db ≡ ok w mid
    → profile_unlock p request db ≡ some u
    → profile_cancellation p request db ≡ none
    → find_cancellation w.pk request mid ≡ none
unfolding profile_unlock profile_cancellation get_or_create_wallet ◌>>=◌
locked_clear p w request db mid u got known clear = ground arith

module _ (env : Environment) (now later : ℕ) (profile : UserProfile) (r : UnlockRequest)
    (db db' : Store) (u : CoinUnlock) (b : ℤ)
    (h : unlock_episode env now later profile r db ≡ ok (u, b) db') where
  run : UnlockRun env now later profile r db db' u b
  run = unlock_episode-UnlockRun env now later profile r db db' u b h

  run-IsSettled : IsSettled run.w r run.mid db' u
  run-IsSettled =
      settle-IsSettled env later run.p run.w run.e r run.mid db' u _ _ run.same
        (λ v known. locked_lookup run.p run.w r.request_id db run.mid v run.wallet_locked known)
        (λ v known.
          locked_clear run.p run.w r.request_id db run.mid v run.wallet_locked known
            run.not_cancelled)
        run.settled

  t : SameTables db run.mid
  t = locking-SameTables run.p db run.wallet_locked

  run_current : current_profile env profile db' ≡ some run.p
  run_current =
      let s = run-IsSettled in
      same_current env profile db db' (s.same_profiles ∙ t.same_profiles)
        (s.same_deletions ∙ t.same_deletions)
      ∙ run.current

  run_locked : lock_episode_by_public_id db' r.episode_id ≡ some run.e
  run_locked =
      let s = run-IsSettled in
      same_lock r.episode_id db db' (s.same_series ∙ t.same_series)
        (s.same_episodes ∙ t.same_episodes)
      ∙ run.locked

  run_wallet : wallet_of run.p db' ≡ some run.w
  unfolding wallet_of
  run_wallet = rw run-IsSettled.same_wallets (wallet_of-locked run.p db run.wallet_locked)

  retry_run :
      (now' later' : ℕ)
      → episode_is_eligible env.settings db' now' run.e ≡ true
      → is_grant (evaluate_authorize_access env db' later' run.e (some run.p)) ≡ true
      → unlock_episode env now' later' profile r db' ≡ ok (u, b) db'
  unfolding unlock_episode lock_current_profile profile_unlock profile_cancellation settle ◌>>=◌
  retry_run now' later' eligible granted =
      let s = run-IsSettled in
      ground (
        arith,
        run_current,
        run_locked,
        run_wallet,
        locking_known run.p db' run.w run_wallet,
        s.stored,
        s.same,
        s.not_cancelled,
        run.enabled,
        run.reported,
      )

  -- A repeated request repeats its answer: once an unlock has committed, the same request in the
  -- store that it left, at any clocks at which the locked episode is still eligible and access is
  -- still granted, returns the same receipt and the same balance and changes nothing.
  pub unlock_retry :
      (now' later' : ℕ) (p : UserProfile) (e : LoadedEpisode)
      → current_profile env profile db ≡ some p
      → lock_episode_by_public_id db r.episode_id ≡ some e
      → episode_is_eligible env.settings db' now' e ≡ true
      → is_grant (evaluate_authorize_access env db' later' e (some p)) ≡ true
      → unlock_episode env now' later' profile r db' ≡ ok (u, b) db'
  unlock_retry now' later' p e cur found eligible granted =
      let ep : p ≡ run.p = ground (arith, run.current) in
      let ee : e ≡ run.e = ground (arith, run.locked) in
      retry_run now' later' (rw ee at eligible) (rw (ee, ep) at granted)

  -- A completed request cannot be cancelled: `resolve_unlock` answers it with its receipt.
  pub resolve_after_unlock : resolve_unlock env profile r db' ≡ ok (completed u, b) db'
  unfolding resolve_unlock lock_current_profile find_resolution resolution_of ◌>>=◌
  resolve_after_unlock =
      let s = run-IsSettled in
      ground (
        arith,
        run_current,
        locking_known run.p db' run.w run_wallet,
        s.stored,
        s.same,
        run.enabled,
        run.reported,
      )
