-- ===== src/Model/Catalog.antt =====
-- backend/apps/catalog/models.py and backend/apps/playback/models.py: the rows that access reads.
-- Primary keys, public ids and digests are only compared, so they are numbers; an instant is a
-- number of microseconds. `translations` and `content_segments` stand in the row they belong to.
use shortform_streaming.Prelude.{ℕ, Bool, String, Option, List}

pub data PublicationStatus : Type 0 where
  draft published : PublicationStatus

-- SeriesTranslation, EpisodeTranslation
pub record Translation : Type 0 where
  pub language : String
  pub title : String
  pub synopsis : String

pub record Series : Type 0 where
  pub pk : ℕ
  pub public_id : ℕ
  pub title : String
  pub synopsis : String
  pub publication_status : PublicationStatus
  pub original_language : String
  pub content_segments : List String
  pub distribution_territories : List String
  pub distribution_platforms : List String
  pub distribution_storefronts : List String
  pub distribution_languages : List String
  pub self_owned : Bool
  pub provenance_reference : String
  pub promotional_use_approved : Bool
  pub takedown : Bool
  pub free_episode_count : ℕ
  pub rewarded_ads_enabled : Bool
  pub translations : List Translation

pub data EpisodeAccessMode : Type 0 where
  inherit free rewarded_ad coin both : EpisodeAccessMode

pub record Episode : Type 0 where
  pub pk : ℕ
  pub public_id : ℕ
  pub series_id : ℕ
  pub order : ℕ
  pub access_mode : EpisodeAccessMode
  pub coin_price : Option ℕ
  pub title : String
  pub synopsis : String
  pub duration_seconds : ℕ
  pub publication_status : PublicationStatus
  pub window_starts_at : Option ℕ
  pub window_ends_at : Option ℕ
  pub translations : List Translation

-- An `Episode` object with its `series` loaded.
pub record LoadedEpisode : Type 0 where
  pub episode : Episode
  pub open episode use *
  pub series : Series

pub record ContentRight : Type 0 where
  pub series_id : ℕ
  pub takedown : Bool
  pub drm_required : Bool
  pub promotional_clip_permission : Bool
  pub free_access_permission : Bool
  pub rewarded_ad_permission : Bool
  pub coin_access_permission : Bool
  pub paid_promotion_permission : Bool
  pub licensor : String
  pub contract_reference : String
  pub revenue_share_rule_reference : String
  pub starts_at : ℕ
  pub ends_at : Option ℕ
  pub territory_allowlist : List String
  pub territory_denylist : List String
  pub platforms : List String
  pub storefronts : List String
  pub languages : List String
  pub original_languages : List String
  pub subtitle_languages : List String
  pub dub_languages : List String

pub data MediaAssetState : Type 0 where
  pending_upload uploaded processing ready failed blocked removed : MediaAssetState

-- The texts that `diagnostic_message` is set to.
pub data Diagnostic : Type 0 where
  provider_unset upload_incomplete active_exists id_missing asset_missing check_failed : Diagnostic
  encoding_failed requirements_missing another_ready update_failed takedown_failed : Diagnostic
  submit_failed : Diagnostic

-- `provider_asset_id` and `diagnostic_message` are `none` for the blank text. `renditions` is their
-- number; the duration in seconds is only stored.
pub record MediaAsset : Type 0 where
  pub pk : ℕ
  pub episode_id : ℕ
  pub checksum : ℕ
  pub provider_asset_id : Option ℕ
  pub state : MediaAssetState
  pub captions_language : String
  pub has_captions : Bool
  pub thumbnail_count : ℕ
  pub duration_seconds : Option ℕ
  pub renditions : ℕ
  pub diagnostic_message : Option Diagnostic
