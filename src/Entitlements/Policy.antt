-- ===== src/Entitlements/Policy.antt =====
-- backend/apps/entitlements/policy.py, `resolve_episode_policy` and `evaluate_authorize_access`;
-- backend/apps/wallet/capabilities.py.
use shortform_streaming.Prelude.{
  ℕ, Bool, true, false, ◌&&◌, Option, none, some, List, [], ◌∷◌, if◌then◌else◌, find, leb, ◌==◌,
}
use shortform_streaming.Model.{
  UserProfile, EntitlementSource, EpisodeAccessMode, LoadedEpisode, AdsMode, SpendingMode,
  Environment, Store,
}
use shortform_streaming.Catalog.Episodes.{episode_is_eligible}

pub data LockReason : Type 0 where
  login_required entitlement_required : LockReason

pub data GrantSource : Type 0 where
  free rewarded_ad staff coin : GrantSource

pub data AuthorizeAccess : Type 0 where
  ineligible : AuthorizeAccess
  grant : GrantSource → AuthorizeAccess
  lock : List LockReason → AuthorizeAccess

pub record ResolvedEpisodePolicy : Type 0 where
  pub effective_mode : EpisodeAccessMode
  pub coin_price : Option ℕ
  pub ad_available : Bool
  pub version : ℕ

-- The mode of an episode that inherits: `1 <= order <= free_episode_count`.
unfoldable pub inherited_mode : LoadedEpisode → EpisodeAccessMode
inherited_mode e =
    if leb 1 e.order && leb e.order e.series.free_episode_count
    then EpisodeAccessMode.free
    else EpisodeAccessMode.rewarded_ad

unfoldable pub effective_mode_of : EpisodeAccessMode → LoadedEpisode → EpisodeAccessMode
unfolding inherited_mode
effective_mode_of EpisodeAccessMode.inherit e = inherited_mode e
effective_mode_of mode e = mode

abbrev pub allows_ad : EpisodeAccessMode → Bool
allows_ad EpisodeAccessMode.rewarded_ad = true
allows_ad EpisodeAccessMode.both = true
allows_ad _ = false

abbrev pub allows_coin : EpisodeAccessMode → Bool
allows_coin EpisodeAccessMode.coin = true
allows_coin EpisodeAccessMode.both = true
allows_coin _ = false

abbrev pub is_free : EpisodeAccessMode → Bool
is_free EpisodeAccessMode.free = true
is_free _ = false

-- `settings.REWARDED_ADS_MODE in {"test", "production"}`
abbrev pub ads_enabled : AdsMode → Bool
ads_enabled AdsMode.disabled = false
ads_enabled _ = true

unfoldable pub policy_version : Environment → LoadedEpisode → ℕ
policy_version env e = env.policy_digest (record {
  episode_id = e.pk;
  episode_public_id = e.public_id;
  series_id = e.series_id;
  series_public_id = e.series.public_id;
  access_mode = e.access_mode;
  coin_price = e.coin_price;
  episode_order = e.order;
  free_episode_count = e.series.free_episode_count;
  rewarded_ads_enabled = e.series.rewarded_ads_enabled;
  rewarded_ads_mode = env.rewarded_ads_mode;
})

unfoldable pub resolve_episode_policy : Environment → LoadedEpisode → ResolvedEpisodePolicy
unfolding effective_mode_of policy_version
resolve_episode_policy env e =
    let mode = effective_mode_of e.access_mode e in
    record {
      effective_mode = mode;
      coin_price = e.coin_price;
      ad_available =
          allows_ad mode && e.series.rewarded_ads_enabled && ads_enabled env.rewarded_ads_mode;
      version = policy_version env e;
    }

unfoldable pub episode_is_free : Environment → LoadedEpisode → Bool
unfolding resolve_episode_policy
episode_is_free env e = is_free (resolve_episode_policy env e).effective_mode

-- The source of the entitlement of a profile to an episode.
unfoldable pub entitlement_source : Store → UserProfile → ℕ → Option EntitlementSource
entitlement_source db p episode =
    elim (find (λ x. x.user_profile == p.pk && x.episode == episode) db.entitlements) [
      | none ↦ none
      | some x ↦ some x.source
    ]

abbrev pub grant_of : EntitlementSource → AuthorizeAccess
grant_of EntitlementSource.rewarded_ad = grant GrantSource.rewarded_ad
grant_of EntitlementSource.staff = grant GrantSource.staff
grant_of EntitlementSource.coin = grant GrantSource.coin

-- What remains without an entitlement: the free window, then the lock of the account.
unfoldable pub without_entitlement :
    Environment → LoadedEpisode → Option UserProfile → AuthorizeAccess
without_entitlement env e profile =
    if episode_is_free env e then grant GrantSource.free else elim profile [
      | none ↦ lock (LockReason.login_required ∷ [])
      | some p ↦ lock (LockReason.entitlement_required ∷ [])
    ]

unfoldable pub evaluate_authorize_access :
    Environment → Store → ℕ → LoadedEpisode → Option UserProfile → AuthorizeAccess
unfolding without_entitlement
evaluate_authorize_access env db now e profile =
    if episode_is_eligible env.settings db now e
    then elim profile [
      | none ↦ without_entitlement env e none
      | some p ↦ elim (entitlement_source db p e.pk) [
        | some source ↦ grant_of source
        | none ↦ without_entitlement env e (some p)
      ]
    ]
    else ineligible

abbrev is_test : SpendingMode → Bool
is_test SpendingMode.test = true
is_test _ = false

abbrev is_sandbox : SpendingMode → Bool
is_sandbox SpendingMode.revenuecat_sandbox = true
is_sandbox _ = false

unfoldable pub coin_spending_enabled : Environment → Bool
coin_spending_enabled env =
    if env.hosted_sandbox
    then is_sandbox env.coin_spending_mode
    else env.debug && is_test env.coin_spending_mode
