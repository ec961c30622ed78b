-- ===== src/Advertising/Status.antt =====
-- backend/apps/advertising/services.py, `reward_status`.
use shortform_streaming.Prelude.{
  ℕ, not, ◌||◌, Option, none, some, if◌then◌else◌, find, leb, ◌==◌, is_just,
}
use shortform_streaming.Model.{
  UserProfile, RewardIntent, LoadedEpisode, Environment, Store, Action, gets, pure, ◌>>=◌,
}
use shortform_streaming.Catalog.Episodes.{lock_episode_for_access}
use shortform_streaming.Accounts.{lock_current_profile}
use shortform_streaming.Entitlements.Policy.{policy_version}
use shortform_streaming.Advertising.Intents.{offer_available, same_unit, find_intent}

pub data RewardStatus : Type 0 where
  unavailable granted expired pending : RewardStatus

-- The status of an intent whose episode and profile are there.
unfoldable pub status_of :
    Environment → Store → ℕ → ℕ → UserProfile → LoadedEpisode → RewardIntent → RewardStatus
status_of env db now later p e i = elim i.granted_at [
  | some t ↦ RewardStatus.granted
  | none ↦
      if leb i.expires_at now
      then RewardStatus.expired
      else if not (is_just (policy_version env e) i.policy_version)
          || not (same_unit i.ad_unit_id env.rewarded_ads_unit_id)
          || not (offer_available env db later e p)
      then RewardStatus.unavailable
      else RewardStatus.pending
]

unfoldable pub known_status :
    Environment
    → Store
    → ℕ
    → ℕ
    → UserProfile
    → Option LoadedEpisode
    → Option RewardIntent
    → RewardStatus
unfolding status_of
known_status env db now later p (some e) (some i) = status_of env db now later p e i
known_status env db now later p _ _ = RewardStatus.unavailable

unfoldable pub status_for :
    Environment → ℕ → ℕ → RewardIntent → Option UserProfile → Action RewardStatus
unfolding known_status
status_for env now later i none = pure RewardStatus.unavailable
status_for env now later i (some profile) = do
  p ← lock_current_profile env profile
  gets (λ db.
      known_status env db now later p (lock_episode_for_access db i.episode) (find_intent i.pk db))

unfoldable pub reward_status : Environment → ℕ → ℕ → RewardIntent → Action RewardStatus
unfolding status_for
reward_status env now later i = do
  profile ← gets (λ db. find (λ p. p.pk == i.user_profile) db.profiles)
  status_for env now later i profile
