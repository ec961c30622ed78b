-- ===== src/Tests/Viewing.antt =====
-- A reward, a closed account, and watch progress.
use shortform_streaming.Model.{Subject, WatchProgress}
use shortform_streaming.Prelude.{
  matches_nonspace, ◌≡◌, ◌⊎◌, ◌≤◌, inr, refl, true, false, none, some, [], ◌∷◌, List, arith,
}
use shortform_streaming.Prelude.Int.{pos}
use shortform_streaming.Model.{AccountDeletion, EntitlementSource, Store, ok, ◌>>=◌}
use shortform_streaming.Catalog.Episodes.{episode_is_eligible, lock_episode_for_access}
use shortform_streaming.Prelude.{has_text, words}
use shortform_streaming.Catalog.Context.{
  resolve_launch_context, valid_scope, platform_codes, storefront_codes,
}
use shortform_streaming.Catalog.Eligibility.{series_is_eligible}
use shortform_streaming.Catalog.Rights.{series_is_admitted}
use shortform_streaming.Accounts.{
  VerifiedToken, current_profile, request_account_deletion, find_deletion,
}
use shortform_streaming.Accounts.Closed.{deletion_closes}
use shortform_streaming.Entitlements.Policy.{
  evaluate_authorize_access, entitlement_source, episode_is_free, policy_version,
}
use shortform_streaming.Entitlements.Offers.{evaluate_episode_offers}
use shortform_streaming.Advertising.Intents.{offer_available, find_intent}
use shortform_streaming.Advertising.Rewards.{VerifiedReward, grant_verified_reward, is_replay}
use shortform_streaming.Advertising.Grants.{GrantRun, IsGranted, grant_effect}
use shortform_streaming.Advertising.Replays.{grant_replay}
use shortform_streaming.Progress.{
  find_progress, upsert_watch_progress, clamp_position_seconds, resolve_completed,
}
use shortform_streaming.Progress.Laws.{count, upsert_result, upsert_unique, completed_stays}
use shortform_streaming.Tests.World.{environment, intent, db, profile}

abbrev callback : VerifiedReward
callback = record {
  ad_unit = 2;
  custom_data = 8;
  user_id = 9;
  transaction_id = 60;
  timestamp = 100;
}

abbrev rewarded : Store
rewarded = record db {
  entitlements =
      record { user_profile = 1; episode = 1; source = EntitlementSource.rewarded_ad } ∷ [];
  intents =
      record intent {
        granted_at = some 200;
        provider_transaction_id = some 60;
        provider_timestamp = some 100;
      }
      ∷ [];
}

granted : grant_verified_reward environment 200 200 callback db ≡ ok tt rewarded
unfolding grant_verified_reward current_profile lock_episode_for_access find_intent offer_available
    evaluate_episode_offers policy_version evaluate_authorize_access episode_is_eligible
    resolve_launch_context words series_is_eligible has_text valid_scope platform_codes
    storefront_codes series_is_admitted entitlement_source episode_is_free ◌>>=◌ matches_nonspace
granted = refl

grant_effect_example :
    (run : GrantRun environment 200 200 callback db rewarded) × (((is_replay run.i callback ≡ true)
        × (rewarded ≡ db))
      ⊎ IsGranted environment 200 200 callback run.p run.e run.i db rewarded)
grant_effect_example = grant_effect environment 200 200 callback db rewarded granted

grant_replay_example : grant_verified_reward environment 999 999 callback rewarded ≡ ok tt rewarded
grant_replay_example = grant_replay environment 200 200 999 999 callback db rewarded granted

abbrev token : VerifiedToken
token = record { uid = 11; auth_time = some 0 }

abbrev deletion : AccountDeletion
deletion = record {
  public_id = 1000;
  uid_fingerprint = 11;
  firebase_uid = some 11;
  completed = false;
  completed_at = none;
  attempts = 0;
  last_attempt_at = none;
}

abbrev erased : Store
erased = record db {
  profiles = [];
  deletions = deletion ∷ [];
  intents = [];
  wallets = record { pk = 1; user_profile = none } ∷ [];
  next_id = 1001;
}

requested : request_account_deletion environment 1 token db ≡ ok deletion erased
unfolding request_account_deletion find_deletion ◌>>=◌
requested = refl

deletion_closes_example :
    (current_profile environment profile erased ≡ none)
    × (erased.entries ≡ db.entries)
    × (erased.unlocks ≡ db.unlocks)
deletion_closes_example =
    deletion_closes environment 1 token db erased deletion profile requested refl

abbrev row : WatchProgress
row = record {
  subject = Subject.user 1;
  episode = 1;
  position_seconds = 96;
  completed = true;
  updated_at = 0;
}

abbrev rows : List WatchProgress
rows = row ∷ []

found : find_progress (Subject.user 1) 1 rows ≡ some row
unfolding find_progress
found = refl

-- The row was inserted by another transaction after the lookup.
upsert_result_example :
    (r : WatchProgress) × (find_progress
        (Subject.user 1)
        1
        (upsert_watch_progress 9 (Subject.user 1) 1 100 (pos 120) false none rows)
      ≡ some r)
    × (r.position_seconds ≡ clamp_position_seconds (pos 120) 100)
    × (r.position_seconds ≤ 100)
    × (r.completed ≡ resolve_completed r.position_seconds 100 false true)
upsert_result_example =
    upsert_result 9 (Subject.user 1) 1 100 (pos 120) false none rows (some row) found (inr refl)

upsert_unique_example :
    count
      (Subject.user 1)
      1
      (upsert_watch_progress 9 (Subject.user 1) 1 100 (pos 120) false none rows)
    ≤ 1
upsert_unique_example =
    upsert_unique 9 (Subject.user 1) 1 100 (pos 120) false none rows (some row) found (inr refl)
      (Subject.user 1) 1 (omega arith)

completed_stays_example :
    (r : WatchProgress) × (find_progress
        (Subject.user 1)
        1
        (upsert_watch_progress 9 (Subject.user 1) 1 100 (pos 3) false (some row) rows)
      ≡ some r)
    × (r.completed ≡ true)
completed_stays_example =
    completed_stays 9 (Subject.user 1) 1 100 (pos 3) false (some row) rows row found refl
