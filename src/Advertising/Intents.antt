-- ===== src/Advertising/Intents.antt =====
-- backend/apps/advertising/services.py: reward intents.
use shortform_streaming.Prelude.{
  ℕ, ◌+◌, Bool, true, false, not, ◌&&◌, Option, none, some, ◌∷◌, any, find, ◌==◌,
}
use shortform_streaming.Model.{
  AdUnit, UserProfile, RewardIntent, LoadedEpisode, Environment, Store, Error, Action, gets, modify,
  or_raise, raise_if, fresh, pure, ◌>>=◌, ◌>>◌,
}
use shortform_streaming.Catalog.Episodes.{
  episode_is_eligible, lock_episode_for_access, lock_episode_by_public_id,
}
use shortform_streaming.Accounts.{lock_current_profile}
use shortform_streaming.Entitlements.Policy.{ads_enabled, policy_version}
use shortform_streaming.Entitlements.Offers.{
  OfferMethodType, OfferMethod, Offers, offers_locked, evaluate_episode_offers,
}

abbrev pub is_ad_method : OfferMethod → Bool
is_ad_method m = elim m.type [ OfferMethodType.rewarded_ad ↦ true | _ ↦ false ]

abbrev pub offers_ad : Offers → Bool
offers_ad (offers_locked reasons methods version price) = any is_ad_method methods
offers_ad _ = false

unfoldable pub offer_available : Environment → Store → ℕ → LoadedEpisode → UserProfile → Bool
offer_available env db now e p =
    ads_enabled env.rewarded_ads_mode
    && p.ads_consent
    && offers_ad (evaluate_episode_offers env db now e (some p))

abbrev pub same_unit : AdUnit → AdUnit → Bool
same_unit a b = a.whole == b.whole && a.last_part == b.last_part

unfoldable pub find_intent : ℕ → Store → Option RewardIntent
find_intent pk db = find (λ i. i.pk == pk) db.intents

-- The clocks of one call: at the eligibility check, at the offer, and for the row's two instants.
pub record Clocks : Type 0 where
  pub checked : ℕ
  pub offered : ℕ
  pub timed : ℕ
  pub saved : ℕ

abbrev pub is_other_episode : Option LoadedEpisode → ℕ → Bool
is_other_episode none id = true
is_other_episode (some e) id = not (e.public_id == id)

-- The expected version, where the client sends one, is the version in force.
abbrev pub version_differs : Option ℕ → ℕ → Bool
version_differs none version = false
version_differs (some v) version = not (v == version)

-- `RewardIntent.objects.create`: the request is known to be new, and the two bindings are random.
unfoldable pub new_intent :
    Environment → Clocks → UserProfile → LoadedEpisode → ℕ → Action RewardIntent
new_intent env clocks p e request_id = do
  pk ← fresh
  custom_data ← fresh
  ssv_user_id ← fresh
  let i : RewardIntent = record {
    pk = pk;
    user_profile = p.pk;
    episode = e.pk;
    request_id = request_id;
    custom_data = custom_data;
    ssv_user_id = ssv_user_id;
    ad_unit_id = env.rewarded_ads_unit_id;
    policy_version = some (policy_version env e);
    created_at = clocks.saved;
    expires_at = clocks.timed + 900000000;
    granted_at = none;
    provider_transaction_id = none;
    provider_timestamp = none;
  }
  modify (λ db. record db { intents = i ∷ db.intents })
  pure i

-- What follows the lookup of the request: its intent again, or a new one.
unfoldable pub intent_for :
    Environment
    → Clocks
    → UserProfile
    → ℕ
    → ℕ
    → Option ℕ
    → Option RewardIntent
    → Action (RewardIntent × Bool)
unfolding new_intent
intent_for env clocks p episode_id request_id expected (some known) = do
  e ← gets (λ db. lock_episode_for_access db known.episode)
  raise_if (is_other_episode e episode_id) Error.reward_unavailable
  i ← or_raise (← gets (find_intent known.pk)) Error.reward_unavailable
  pure (i, false)
intent_for env clocks p episode_id request_id expected none = do
  e ← or_raise (← gets (λ db. lock_episode_by_public_id db episode_id)) Error.not_found
  eligible ← gets (λ db. episode_is_eligible env.settings db clocks.checked e)
  raise_if (not eligible) Error.not_found
  available ← gets (λ db. offer_available env db clocks.offered e p)
  raise_if (not available) Error.reward_unavailable
  raise_if (version_differs expected (policy_version env e)) Error.reward_unavailable
  i ← new_intent env clocks p e request_id
  pure (i, true)

unfoldable pub create_reward_intent :
    Environment → Clocks → UserProfile → ℕ → ℕ → Option ℕ → Action (RewardIntent × Bool)
unfolding intent_for
create_reward_intent env clocks profile episode_id request_id expected = do
  p ← lock_current_profile env profile
  known ← gets (λ db. find (λ i. i.user_profile == p.pk && i.request_id == request_id) db.intents)
  intent_for env clocks p episode_id request_id expected known
