-- ===== src/Model/Accounts.antt =====
-- backend/apps/accounts/models.py, backend/apps/entitlements/models.py and
-- backend/apps/advertising/models.py.
use shortform_streaming.Prelude.{ℕ, Bool, Option}
use shortform_streaming.Model.Deployment.{AdUnit}

pub record UserProfile : Type 0 where
  pub pk : ℕ
  pub firebase_uid : ℕ
  pub ads_consent : Bool

-- `firebase_uid` is `none` once it is erased.
pub record AccountDeletion : Type 0 where
  pub public_id : ℕ
  pub uid_fingerprint : ℕ
  pub firebase_uid : Option ℕ
  pub completed : Bool
  pub completed_at : Option ℕ
  pub attempts : ℕ
  pub last_attempt_at : Option ℕ

pub data EntitlementSource : Type 0 where
  staff rewarded_ad coin : EntitlementSource

pub record EpisodeEntitlement : Type 0 where
  pub user_profile : ℕ
  pub episode : ℕ
  pub source : EntitlementSource

-- `policy_version` is `none` for the blank text.
pub record RewardIntent : Type 0 where
  pub pk : ℕ
  pub user_profile : ℕ
  pub episode : ℕ
  pub request_id : ℕ
  pub custom_data : ℕ
  pub ssv_user_id : ℕ
  pub ad_unit_id : AdUnit
  pub policy_version : Option ℕ
  pub created_at : ℕ
  pub expires_at : ℕ
  pub granted_at : Option ℕ
  pub provider_transaction_id : Option ℕ
  pub provider_timestamp : Option ℕ

-- Exactly one of `user_profile` and `device_id`.
pub data Subject : Type 0 where
  user device : ℕ → Subject

pub record WatchProgress : Type 0 where
  pub subject : Subject
  pub episode : ℕ
  pub position_seconds : ℕ
  pub completed : Bool
  pub updated_at : ℕ
