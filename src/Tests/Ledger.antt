-- ===== src/Tests/Ledger.antt =====
-- An unlock that is paid, against the coin ledger (backend/apps/wallet).
use shortform_streaming.Prelude.{◌≡◌, refl, arith, [], ◌∷◌}
use shortform_streaming.Entitlements.Policy.{
  evaluate_authorize_access, episode_is_free, entitlement_source, LockReason,
}
use shortform_streaming.Prelude.Int.{pos, neg_ℕ, ◌+ℤ◌}
use shortform_streaming.Model.{CoinUnlock, Store, ok}
use shortform_streaming.Wallet.Ledger.{find_unlock, find_cancellation, balance, wallet_of}
use shortform_streaming.Wallet.Unlocks.{
  profile_unlock, profile_cancellation, offer_holds, unlock_episode,
}
use shortform_streaming.Wallet.Affordable.{IsAffordable, unlock_episode-IsAffordable}
use shortform_streaming.Service.{start, next, unlocking}
use shortform_streaming.Service.Ledger.{LedgerRun}
use shortform_streaming.Service.Ledger.Refinement.{Reach-refines}
use shortform_streaming.Service.Ledger.{spending}
use shortform_streaming.Prelude.{[], ◌∷◌}
use shortform_streaming.Tests.World.{environment, profile, loaded, wallet, db}
use shortform_streaming.Tests.Spending.{
  request, receipt, after, unlocked, current, locked, eligible,
}
use shortform_streaming.Entitlements.Policy.{resolve_episode_policy, coin_spending_enabled}

Reach-refines_example :
    LedgerRun (λ v. balance v db.entries) (spending 1 5 ∷ []) (λ v. balance v after.entries)
Reach-refines_example =
    Reach-refines environment db after
      (next start (unlocking 7 7 profile request (receipt, pos 15) unlocked))

affordable : IsAffordable environment 7 7 profile profile loaded wallet request db
unfolding balance coin_spending_enabled resolve_episode_policy find_cancellation find_unlock
    offer_holds profile_cancellation profile_unlock wallet_of ◌+ℤ◌ entitlement_source
    episode_is_free evaluate_authorize_access
affordable = record {
  current = current;
  enabled = refl;
  not_cancelled = refl;
  new = refl;
  found = locked;
  eligible = eligible;
  owned = refl;
  reasons = LockReason.entitlement_required ∷ [];
  locked = rw eligible refl;
  priced = refl;
  offered = refl;
  positive = omega arith;
  bounded_price = omega arith;
  covered = omega arith;
  bounded = omega arith;
}

unlock_episode-IsAffordable_example :
    (u : CoinUnlock) × (db' : Store) × (unlock_episode environment 7 7 profile request db
      ≡ ok (u, neg_ℕ 5 +ℤ balance 1 db.entries) db')
unlock_episode-IsAffordable_example =
    unlock_episode-IsAffordable environment 7 7 profile profile loaded wallet request db affordable
