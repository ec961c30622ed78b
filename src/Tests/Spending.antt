-- ===== src/Tests/Spending.antt =====
-- Unlocking with coins (backend/apps/wallet).
use shortform_streaming.Prelude.{
  ◌≡◌, refl, true, not, ◌&&◌, ◌||◌, arith, is_some, List, none, some, [], ◌∷◌,
}
use shortform_streaming.Prelude.Int.{pos, negsuc, ◌+ℤ◌}
use shortform_streaming.Model.{
  CoinUnlock, CoinUnlockCancellation, UserProfile, LoadedEpisode, Store, EntitlementSource, Kind,
  Error, ok, err, ◌>>=◌,
}
use shortform_streaming.Catalog.Episodes.{episode_is_eligible, lock_episode_by_public_id}
use shortform_streaming.Catalog.Rights.{series_is_admitted}
use shortform_streaming.Catalog.Context.{
  LaunchContext, resolve_launch_context, valid_scope, territory_codes, language_codes,
  platform_codes, storefront_codes,
}
use shortform_streaming.Prelude.{matches_nonspace, has_text, words}
use shortform_streaming.Catalog.Eligibility.{
  series_is_eligible, in_eligible_series_queryset, is_published, has_metadata,
}
use shortform_streaming.Accounts.{lock_current_profile, current_profile, is_deleted}
use shortform_streaming.Entitlements.Policy.{
  LockReason, evaluate_authorize_access, resolve_episode_policy, entitlement_source,
  coin_spending_enabled, episode_is_free,
}
use shortform_streaming.Wallet.Ledger.{
  get_or_create_wallet, create_entry, create_unlock, accepts_unlock, create_cancellation,
  accepts_cancellation, is_attached, find_unlock, find_cancellation, wallet_of, wallet_balance,
  balance,
}
use shortform_streaming.Wallet.Unlocks.{
  UnlockRequest, unlock_episode, is_grant, is_ineligible, offer_holds, completed, cancelled,
  resolve_unlock, profile_unlock, profile_cancellation,
}
use shortform_streaming.Wallet.Charging.{unlock_episode_effect, UnlockEffect}
use shortform_streaming.Entitlements.Offers.{
  OfferMethod, OfferMethodType, offer_method, offers_locked, offers_of, locked_methods,
  evaluate_episode_offers,
}
use shortform_streaming.Entitlements.Decisions.{access_decision, coin_offer_holds, is_entitled}
use shortform_streaming.Wallet.Requests.{unlock_retry, resolve_after_unlock}
use shortform_streaming.Wallet.Cancelled.{cancelled_never_completes}
use shortform_streaming.Wallet.Balance.{IsLedgerSafe}
use shortform_streaming.Service.{start, next, unlocking}
use shortform_streaming.Service.Histories.{Reach-IsLedgerSafe}
use shortform_streaming.Catalog.Gate.{IsPlayable, episode_is_eligible-IsPlayable}
use shortform_streaming.Catalog.Agreement.{IsReadAlike, series_query-eq-admission}
use shortform_streaming.Tests.World.{environment, settings, loaded, series, profile, db}

abbrev pub request : UnlockRequest
request = record {
  episode_id = 10;
  request_id = 100;
  expected_policy_version = 51;
  expected_coin_price = 5;
}

abbrev pub receipt : CoinUnlock
receipt = record {
  wallet = 1;
  request_id = 100;
  episode_public_id = 10;
  policy_version = 51;
  expected_coin_price = 5;
  charged_coins = 5;
  ledger_entry = some 1001;
}

abbrev pub after : Store
after = record db {
  entries =
      record {
        pk = 1001;
        wallet = 1;
        reference = 1000;
        kind = Kind.unlock;
        amount = negsuc 4;
        created_at = 7;
      }
      ∷ db.entries;
  unlocks = receipt ∷ [];
  entitlements = record { user_profile = 1; episode = 1; source = EntitlementSource.coin } ∷ [];
  next_id = 1002;
}

pub eligible : episode_is_eligible settings db 7 loaded ≡ true
unfolding episode_is_eligible series_is_eligible series_is_admitted resolve_launch_context has_text
    matches_nonspace words valid_scope territory_codes language_codes platform_codes
    storefront_codes
eligible = refl

pub unlocked : unlock_episode environment 7 7 profile request db ≡ ok (receipt, pos 15) after
unfolding unlock_episode lock_current_profile profile_unlock profile_cancellation wallet_of
    coin_spending_enabled find_unlock find_cancellation lock_episode_by_public_id
    get_or_create_wallet evaluate_authorize_access resolve_episode_policy entitlement_source
    wallet_balance balance create_entry create_unlock accepts_unlock episode_is_free ◌+ℤ◌ ◌>>=◌
    episode_is_eligible series_is_eligible series_is_admitted resolve_launch_context has_text words
    valid_scope territory_codes language_codes platform_codes storefront_codes matches_nonspace
unlocked = refl

unlock_episode_effect_example :
    (p : UserProfile) × (e : LoadedEpisode) × (current_profile environment profile db ≡ some p)
    × (lock_episode_by_public_id db 10 ≡ some e)
    × UnlockEffect environment p e request db after receipt
unlock_episode_effect_example =
    unlock_episode_effect environment 7 7 profile request db after receipt (pos 15) unlocked

pub current : current_profile environment profile db ≡ some profile
unfolding current_profile is_deleted
current = refl

pub locked : lock_episode_by_public_id db 10 ≡ some loaded
unfolding lock_episode_by_public_id
locked = refl

eligible_after : episode_is_eligible settings after 9 loaded ≡ true
unfolding episode_is_eligible series_is_eligible series_is_admitted resolve_launch_context has_text
    matches_nonspace words valid_scope territory_codes language_codes platform_codes
    storefront_codes
eligible_after = refl

granted_after :
    is_grant (evaluate_authorize_access environment after 9 loaded (some profile)) ≡ true
unfolding evaluate_authorize_access entitlement_source
granted_after = rw eligible_after refl

unlock_retry_example :
    unlock_episode environment 9 9 profile request after ≡ ok (receipt, pos 15) after
unlock_retry_example =
    unlock_retry environment 7 7 profile request db after receipt (pos 15) unlocked 9 9 profile
      loaded current locked eligible_after granted_after

resolve_after_unlock_example :
    resolve_unlock environment profile request after ≡ ok (completed receipt, pos 15) after
resolve_after_unlock_example =
    resolve_after_unlock environment 7 7 profile request db after receipt (pos 15) unlocked

abbrev cancellation : CoinUnlockCancellation
cancellation = record {
  wallet = 1;
  request_id = 100;
  episode_public_id = 10;
  policy_version = 51;
  expected_coin_price = 5;
}

abbrev closed : Store
closed = record db { cancellations = cancellation ∷ [] }

resolved :
    resolve_unlock environment profile request db ≡ ok (cancelled cancellation, pos 20) closed
unfolding resolve_unlock lock_current_profile coin_spending_enabled get_or_create_wallet wallet_of
    find_unlock find_cancellation create_cancellation accepts_cancellation is_attached
    wallet_balance balance ◌+ℤ◌ ◌>>=◌
resolved = refl

cancelled_never_completes_example :
    unlock_episode environment 9 9 profile request closed ≡ err Error.coin_unavailable
cancelled_never_completes_example =
    cancelled_never_completes environment profile request db closed cancellation (pos 20) resolved 9
      9 request refl

safe : IsLedgerSafe db
unfolding balance ◌+ℤ◌
safe = record { nonneg = λ w. ground arith; bounded = λ w. ground arith }

Reach-IsLedgerSafe_example : IsLedgerSafe after
Reach-IsLedgerSafe_example =
    Reach-IsLedgerSafe environment db after
      (next start (unlocking 7 7 profile request (receipt, pos 15) unlocked)) safe

access_decision_example :
    (is_ineligible (evaluate_authorize_access environment db 7 loaded (some profile))
      ≡ not (episode_is_eligible settings db 7 loaded))
    × (is_grant (evaluate_authorize_access environment db 7 loaded (some profile)) ≡ (
        episode_is_eligible settings db 7 loaded
        && (is_entitled db (some profile) 1 || episode_is_free environment loaded)))
access_decision_example = access_decision environment db 7 loaded (some profile)

abbrev methods : List OfferMethod
methods = offer_method OfferMethodType.rewarded_ad ∷ offer_method OfferMethodType.coin ∷ []

offered :
    evaluate_episode_offers environment db 7 loaded (some profile)
    ≡ offers_locked (LockReason.entitlement_required ∷ []) methods 51 (some 5)
unfolding evaluate_episode_offers offers_of locked_methods evaluate_authorize_access
    entitlement_source episode_is_free resolve_episode_policy coin_spending_enabled
offered = rw eligible refl

coin_offer_holds_example :
    (coin_spending_enabled environment ≡ true)
    × (is_some (some profile) ≡ true)
    × ((resolve_episode_policy environment loaded).coin_price ≡ some 5)
    × (offer_holds (resolve_episode_policy environment loaded) 5 request ≡ true)
coin_offer_holds_example =
    coin_offer_holds environment db 7 loaded (some profile) (LockReason.entitlement_required ∷ [])
      methods 51 (some 5) request offered refl refl refl

episode_is_eligible-IsPlayable_example : IsPlayable settings db 7 loaded
episode_is_eligible-IsPlayable_example =
    episode_is_eligible-IsPlayable settings db 7 loaded eligible

abbrev context : LaunchContext
context = record {
  country = "FR";
  platform = "android";
  storefront = "google_play";
  language = "en";
  audience_segment = none;
}

launched : resolve_launch_context settings ≡ some context
unfolding resolve_launch_context has_text matches_nonspace words
launched = refl

provenance_alike : series.self_owned ≡ true → IsReadAlike db.regex_space series.provenance_reference
unfolding has_text matches_nonspace
provenance_alike own = refl

series_query-eq-admission_example : in_eligible_series_queryset settings db 7 series ≡ (
    is_published series.publication_status
    && (series_is_admitted settings db 7 series none
        && has_metadata db.regex_space "en" series.title series.synopsis series.translations))
series_query-eq-admission_example =
    series_query-eq-admission settings db 7 series context launched provenance_alike
