-- ===== src/Entitlements/Offers.antt =====
-- backend/apps/entitlements/policy.py, `evaluate_episode_offers`.
use shortform_streaming.Prelude.{
  ℕ, String, ◌&&◌, Option, List, [], ◌∷◌, ◌++◌, if◌then◌else◌, is_some,
}
use shortform_streaming.Model.{UserProfile, LoadedEpisode, Environment, Store}
use shortform_streaming.Entitlements.Policy.{
  LockReason, GrantSource, AuthorizeAccess, ineligible, grant, lock, allows_coin,
  resolve_episode_policy, evaluate_authorize_access, coin_spending_enabled, ResolvedEpisodePolicy,
}

pub data OfferMethodType : Type 0 where
  entitlement free rewarded_ad coin : OfferMethodType

pub record OfferMethod : Type 0 where
  pub type : OfferMethodType
  pub title : String
  pub description : String

pub data Offers : Type 0 where
  no_offers : Offers
  offers_granted : List OfferMethod → ℕ → Option ℕ → Offers
  offers_locked : List LockReason → List OfferMethod → ℕ → Option ℕ → Offers

-- _OFFER_COPY and `_offer_method`
abbrev pub offer_method : OfferMethodType → OfferMethod
offer_method OfferMethodType.coin = record {
  type = OfferMethodType.coin;
  title = "Unlock with coins";
  description = "Use your coin balance to unlock this episode.";
}
offer_method OfferMethodType.entitlement = record {
  type = OfferMethodType.entitlement;
  title = "Unlocked";
  description = "This episode is already unlocked on your account.";
}
offer_method OfferMethodType.free = record {
  type = OfferMethodType.free;
  title = "Free episode";
  description = "Included in the free preview.";
}
offer_method OfferMethodType.rewarded_ad = record {
  type = OfferMethodType.rewarded_ad;
  title = "Watch an ad to unlock";
  description = "Watch one rewarded ad to unlock this episode permanently.";
}

abbrev pub granted_method : GrantSource → OfferMethodType
granted_method GrantSource.free = OfferMethodType.free
granted_method _ = OfferMethodType.entitlement

unfoldable pub locked_methods :
    Environment → ResolvedEpisodePolicy → Option UserProfile → List OfferMethod
locked_methods env policy profile =
    (if is_some profile && policy.ad_available
      then offer_method OfferMethodType.rewarded_ad ∷ []
      else [])
    ++ (if is_some profile
          && coin_spending_enabled env
          && allows_coin policy.effective_mode
          && is_some policy.coin_price
        then offer_method OfferMethodType.coin ∷ []
        else [])

unfoldable pub offers_of :
    Environment → ResolvedEpisodePolicy → Option UserProfile → AuthorizeAccess → Offers
unfolding locked_methods
offers_of env policy profile ineligible = no_offers
offers_of env policy profile (grant source) =
    offers_granted (offer_method (granted_method source) ∷ []) policy.version policy.coin_price
offers_of env policy profile (lock reasons) =
    offers_locked reasons (locked_methods env policy profile) policy.version policy.coin_price

unfoldable pub evaluate_episode_offers :
    Environment → Store → ℕ → LoadedEpisode → Option UserProfile → Offers
unfolding offers_of
evaluate_episode_offers env db now e profile =
    offers_of env (resolve_episode_policy env e) profile
      (evaluate_authorize_access env db now e profile)
