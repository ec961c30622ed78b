-- ===== src/Model/Context.antt =====
-- What surrounds the services: the settings, and the digests that hashlib and json compute.
use shortform_streaming.Prelude.{ℕ, Bool, Option, List}
use shortform_streaming.Model.Deployment.{Settings, AdsMode}
use shortform_streaming.Model.Catalog.{EpisodeAccessMode}

-- The dict `inputs` of `resolve_episode_policy`.
pub record PolicyInputs : Type 0 where
  pub episode_id : ℕ
  pub episode_public_id : ℕ
  pub series_id : ℕ
  pub series_public_id : ℕ
  pub access_mode : EpisodeAccessMode
  pub coin_price : Option ℕ
  pub episode_order : ℕ
  pub free_episode_count : ℕ
  pub rewarded_ads_enabled : Bool
  pub rewarded_ads_mode : AdsMode

-- The dataclass `Event` of backend/apps/commerce/verification.py. `owner` is a text; its UUID, where
-- it is one in canonical form, is `owner_uuid`.
pub data EventType : Type 0 where
  non_renewing_purchase cancellation refund other_type : EventType

pub record Event : Type 0 where
  pub event_key : ℕ
  pub transaction_key : ℕ
  pub transaction_fingerprint : ℕ
  pub app_id : ℕ
  pub store : ℕ
  pub environment : ℕ
  pub product_id : ℕ
  pub owner : ℕ
  pub owner_uuid : Option ℕ
  pub event_type : EventType
  pub quantity_valid : Bool
  pub identity_valid : Bool
  pub purchased_at_ms : ℕ
  pub event_timestamp_ms : ℕ

-- The dataclass `Product` of backend/apps/commerce/configuration.py.
pub record Product : Type 0 where
  pub app_id : ℕ
  pub application_id : ℕ
  pub product_id : ℕ
  pub coins : ℕ
  pub store : ℕ
  pub environment : ℕ

-- `products` is the registry that `load_products` has accepted.
pub record Environment : Type 0 where
  pub settings : Settings
  pub open settings use *
  pub products : List Product
  pub deletion_fingerprint : ℕ → ℕ
  pub policy_digest : PolicyInputs → ℕ
  pub digest : List ℕ → ℕ
  pub event_digest : Event → ℕ
