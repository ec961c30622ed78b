-- ===== src/Advertising/Rewards.antt =====
-- backend/apps/advertising/services.py, `grant_verified_reward`.
use shortform_streaming.Prelude.{
  ℕ, ◌+◌, Bool, true, false, not, ◌&&◌, ◌||◌, Option, none, some, ◌∷◌, map, if◌then◌else◌, any,
  find, ltb, leb, ◌==◌, is_just,
}
use shortform_streaming.Model.{
  UserProfile, EpisodeEntitlement, EntitlementSource, RewardIntent, LoadedEpisode, Environment,
  Error, Action, gets, modify, or_raise, raise_if, pure, ◌>>=◌, ◌>>◌,
}
use shortform_streaming.Catalog.Episodes.{lock_episode_for_access}
use shortform_streaming.Accounts.{current_profile}
use shortform_streaming.Entitlements.Policy.{ads_enabled, policy_version, entitlement_source}
use shortform_streaming.Advertising.Intents.{offer_available, same_unit, find_intent}

-- The dataclass `VerifiedReward` of backend/apps/advertising/verification.py.
pub record VerifiedReward : Type 0 where
  pub ad_unit : ℕ
  pub custom_data : ℕ
  pub user_id : ℕ
  pub transaction_id : ℕ
  pub timestamp : ℕ

-- `created_at - 1s <= timestamp < expires_at`, now before `expires_at`, and at most 60 seconds ahead.
unfoldable pub in_reward_window : RewardIntent → VerifiedReward → ℕ → Bool
in_reward_window i c now =
    leb i.created_at (c.timestamp + 1000000)
    && ltb c.timestamp i.expires_at
    && ltb now i.expires_at
    && leb c.timestamp (now + 60000000)

abbrev pub is_reward_source : EntitlementSource → Bool
is_reward_source EntitlementSource.rewarded_ad = true
is_reward_source EntitlementSource.staff = true
is_reward_source EntitlementSource.coin = false

-- `EpisodeEntitlement.objects.get_or_create` with the reward as the default source.
unfoldable pub reward_entitlement :
    UserProfile → LoadedEpisode → Option EntitlementSource → Action EntitlementSource
reward_entitlement p e (some source) = pure source
reward_entitlement p e none = do
  let x : EpisodeEntitlement = record {
    user_profile = p.pk;
    episode = e.pk;
    source = EntitlementSource.rewarded_ad;
  }
  modify (λ db. record db { entitlements = x ∷ db.entitlements })
  pure EntitlementSource.rewarded_ad

-- `save(update_fields=…)` of the granted row.
unfoldable pub grant_row : ℕ → VerifiedReward → ℕ → RewardIntent → RewardIntent
grant_row pk c now i =
    if i.pk == pk
    then record i {
      granted_at = some now;
      provider_transaction_id = some c.transaction_id;
      provider_timestamp = some c.timestamp;
    }
    else i

-- The grant of an intent that was not granted before.
unfoldable pub grant_intent :
    Environment
    → ℕ
    → ℕ
    → VerifiedReward
    → UserProfile
    → LoadedEpisode
    → RewardIntent
    → Action (Unit {0})
unfolding reward_entitlement grant_row in_reward_window
grant_intent env now later c p e i = do
  raise_if (not (in_reward_window i c now)) Error.invalid_callback
  used ← gets (λ db. any (λ x. is_just c.transaction_id x.provider_transaction_id) db.intents)
  raise_if used Error.invalid_callback
  available ← gets (λ db. offer_available env db later e p)
  raise_if (not (is_just (policy_version env e) i.policy_version) || not available)
      Error.invalid_callback
  known ← gets (λ db. entitlement_source db p e.pk)
  source ← reward_entitlement p e known
  raise_if (not (is_reward_source source)) Error.invalid_callback
  modify (λ db. record db { intents = map (grant_row i.pk c now) db.intents })

-- The intent was granted by this very callback.
abbrev pub is_replay : RewardIntent → VerifiedReward → Bool
is_replay i c =
    is_just c.transaction_id i.provider_transaction_id && is_just c.timestamp i.provider_timestamp

unfoldable pub grant_or_replay :
    Environment
    → ℕ
    → ℕ
    → VerifiedReward
    → UserProfile
    → LoadedEpisode
    → RewardIntent
    → Option ℕ
    → Action (Unit {0})
unfolding grant_intent
grant_or_replay env now later c p e i (some t) =
    raise_if (not (is_replay i c)) Error.invalid_callback
grant_or_replay env now later c p e i none = grant_intent env now later c p e i

-- `now` is the clock at the window check, `later` the clock at the offer.
unfoldable pub grant_verified_reward : Environment → ℕ → ℕ → VerifiedReward → Action (Unit {0})
unfolding grant_or_replay
grant_verified_reward env now later c = do
  raise_if (not (ads_enabled env.rewarded_ads_mode)) Error.invalid_callback
  initial ←
      or_raise (← gets (λ db. find (λ i. i.custom_data == c.custom_data) db.intents))
        Error.invalid_callback
  profile ←
      or_raise (← gets (λ db. find (λ p. p.pk == initial.user_profile) db.profiles))
        Error.invalid_callback
  p ← or_raise (← gets (current_profile env profile)) Error.invalid_callback
  e ← or_raise (← gets (λ db. lock_episode_for_access db initial.episode)) Error.invalid_callback
  i ← or_raise (← gets (find_intent initial.pk)) Error.invalid_callback
  raise_if (not (i.ssv_user_id == c.user_id)) Error.invalid_callback
  raise_if
      (not (c.ad_unit == i.ad_unit_id.last_part)
        || not (same_unit i.ad_unit_id env.rewarded_ads_unit_id))
      Error.invalid_callback
  grant_or_replay env now later c p e i i.granted_at
