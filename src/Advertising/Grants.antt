-- ===== src/Advertising/Grants.antt =====
-- The effect of `grant_verified_reward` of backend/apps/advertising/services.py.
use shortform_streaming.Prelude.{
  ℕ, ◌+◌, ◌≤◌, ◌<◌, ◌≡◌, refl, true, false, Option, none, some, ◌⊎◌, map, arith, inl, inr, find,
  any, ◌==◌, ==_refl, is_just, Option-cases,
}
use shortform_streaming.Model.{
  UserProfile, EntitlementSource, RewardIntent, LoadedEpisode, Environment, Store, ok, ◌>>=◌,
}
use shortform_streaming.Catalog.Episodes.{lock_episode_for_access}
use shortform_streaming.Accounts.{current_profile}
use shortform_streaming.Entitlements.Policy.{ads_enabled, policy_version, entitlement_source}
use shortform_streaming.Entitlements.Policy.{evaluate_authorize_access}
use shortform_streaming.Entitlements.Offers.{evaluate_episode_offers, offers_of}
use shortform_streaming.Advertising.Intents.{offer_available, same_unit, find_intent}
use shortform_streaming.Advertising.Rewards.{
  VerifiedReward, in_reward_window, is_replay, reward_entitlement, grant_row, grant_intent,
  grant_or_replay, grant_verified_reward,
}

-- The rows that a callback reaches.
pub record GrantRun (env : Environment) (now later : ℕ) (c : VerifiedReward) (db db' : Store)
    : Type 0 where
  pub initial : RewardIntent
  pub profile : UserProfile
  pub p : UserProfile
  pub e : LoadedEpisode
  pub i : RewardIntent
  pub enabled : ads_enabled env.rewarded_ads_mode ≡ true
  pub bound : find (λ x. x.custom_data == c.custom_data) db.intents ≡ some initial
  pub owner : find (λ x. x.pk == initial.user_profile) db.profiles ≡ some profile
  pub current : current_profile env profile db ≡ some p
  pub locked : lock_episode_for_access db initial.episode ≡ some e
  pub reread : find_intent initial.pk db ≡ some i
  pub same_user : (i.ssv_user_id == c.user_id) ≡ true
  pub same_part : (c.ad_unit == i.ad_unit_id.last_part) ≡ true
  pub same_ad_unit : same_unit i.ad_unit_id env.rewarded_ads_unit_id ≡ true
  pub granted : grant_or_replay env now later c p e i i.granted_at db ≡ ok tt db'

pub grant-GrantRun :
    (env : Environment) (now later : ℕ) (c : VerifiedReward) (db db' : Store)
    → grant_verified_reward env now later c db ≡ ok tt db'
    → GrantRun env now later c db db'
unfolding grant_verified_reward ◌>>=◌
grant-GrantRun env now later c db db' h =
    elim (Option-cases (find (λ x. x.custom_data == c.custom_data) db.intents)) [
      | inl missing ↦ absurd (ground arith)
      | inr (initial, bound) ↦
          elim (Option-cases (find (λ x. x.pk == initial.user_profile) db.profiles)) [
            | inl missing ↦ absurd (ground arith)
            | inr (profile, owner) ↦ elim (Option-cases (current_profile env profile db)) [
              | inl missing ↦ absurd (ground arith)
              | inr (p, cur) ↦ elim (Option-cases (lock_episode_for_access db initial.episode)) [
                | inl missing ↦ absurd (ground arith)
                | inr (e, found) ↦ elim (Option-cases (find_intent initial.pk db)) [
                  | inl missing ↦ absurd (ground arith)
                  | inr (i, reread) ↦ record {
                    initial = initial;
                    profile = profile;
                    p = p;
                    e = e;
                    i = i;
                    enabled = ground arith;
                    bound = bound;
                    owner = owner;
                    current = cur;
                    locked = found;
                    reread = reread;
                    same_user = ground arith;
                    same_part = ground arith;
                    same_ad_unit = ground arith;
                    granted = ground arith;
                  }
                ]
              ]
            ]
          ]
    ]

-- An ad is offered only for an episode that the profile is not entitled to.
offered_not_entitled :
    (env : Environment) (db : Store) (now : ℕ) (e : LoadedEpisode) (p : UserProfile)
    → offer_available env db now e p ≡ true
    → entitlement_source db p e.pk ≡ none
unfolding offer_available evaluate_episode_offers offers_of evaluate_authorize_access
offered_not_entitled env db now e p h = elim (Option-cases (entitlement_source db p e.pk)) [
  | inl free ↦ free
  | inr (EntitlementSource.rewarded_ad, known) ↦ absurd (ground arith)
  | inr (EntitlementSource.staff, known) ↦ absurd (ground arith)
  | inr (EntitlementSource.coin, known) ↦ absurd (ground arith)
]

-- A first grant: the callback is in the window of the intent and its transaction is new, the offer
-- is still the one that was shown, and the profile gains its only entitlement to the episode.
pub record IsGranted (env : Environment) (now later : ℕ) (c : VerifiedReward) (p : UserProfile)
    (e : LoadedEpisode) (i : RewardIntent) (db db' : Store) : Type 0 where
  pub not_granted : i.granted_at ≡ none
  pub after_start : i.created_at ≤ c.timestamp + 1000000
  pub before_end : c.timestamp < i.expires_at
  pub in_time : now < i.expires_at
  pub new_transaction :
      any (λ x. is_just c.transaction_id x.provider_transaction_id) db.intents ≡ false
  pub same_version : i.policy_version ≡ some (policy_version env e)
  pub still_offered : offer_available env db later e p ≡ true
  pub not_entitled : entitlement_source db p e.pk ≡ none
  pub entitled : entitlement_source db' p e.pk ≡ some EntitlementSource.rewarded_ad
  pub marked : db'.intents ≡ map (grant_row i.pk c now) db.intents
  pub same_profiles : db'.profiles ≡ db.profiles
  pub same_deletions : db'.deletions ≡ db.deletions
  pub same_series : db'.series ≡ db.series
  pub same_episodes : db'.episodes ≡ db.episodes
  pub same_entries : db'.entries ≡ db.entries

module _ (env : Environment) (now later : ℕ) (c : VerifiedReward) (p : UserProfile)
    (e : LoadedEpisode) (i : RewardIntent) (db db' : Store) where
  pub grant_intent-IsGranted :
      i.granted_at ≡ none
      → grant_intent env now later c p e i db ≡ ok tt db'
      → IsGranted env now later c p e i db db'
  unfolding grant_intent reward_entitlement in_reward_window entitlement_source ◌>>=◌
  grant_intent-IsGranted fresh h = record {
    not_granted = fresh;
    after_start = ground arith;
    before_end = ground arith;
    in_time = ground arith;
    new_transaction = ground arith;
    same_version = ground arith;
    still_offered = ground arith;
    not_entitled = offered_not_entitled env db later e p (ground arith);
    entitled =
        ground
          (arith, ==_refl p.pk, ==_refl e.pk, offered_not_entitled env db later e p (ground arith));
    marked = ground arith;
    same_profiles = ground arith;
    same_deletions = ground arith;
    same_series = ground arith;
    same_episodes = ground arith;
    same_entries = ground arith;
  }

  replay_or_grant :
      (o : Option ℕ)
      → i.granted_at ≡ o
      → grant_or_replay env now later c p e i o db ≡ ok tt db'
      → ((is_replay i c ≡ true) × (db' ≡ db)) ⊎ IsGranted env now later c p e i db db'
  unfolding grant_or_replay ◌>>=◌
  replay_or_grant (some t) known h = inl (ground arith, ground arith)
  replay_or_grant none known h = inr (grant_intent-IsGranted known h)

-- An accepted callback has found its intent, the current owner and the episode. It repeats the
-- callback that granted the intent and changes nothing, or it grants: within the window of the
-- intent, for a transaction that no intent has recorded, under the policy version that the intent
-- was created with and while the ad is still offered; the profile is then entitled to the episode
-- and the intent is marked with the transaction.
pub grant_effect :
    (env : Environment) (now later : ℕ) (c : VerifiedReward) (db db' : Store)
    → grant_verified_reward env now later c db ≡ ok tt db'
    → (run : GrantRun env now later c db db') × (((is_replay run.i c ≡ true) × (db' ≡ db))
        ⊎ IsGranted env now later c run.p run.e run.i db db')
grant_effect env now later c db db' h =
    let run = grant-GrantRun env now later c db db' h in
    (run, replay_or_grant env now later c run.p run.e run.i db db' _ refl run.granted)
