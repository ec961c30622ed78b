-- ===== src/Playback/Polling.antt =====
-- backend/apps/playback/ingest.py: what the provider says of an asset, and what follows.
use shortform_streaming.Prelude.{
  ℕ, Bool, true, false, not, ◌&&◌, Option, none, if◌then◌else◌, ltb, ◌==◌, is_some,
}
use shortform_streaming.Model.{
  MediaAsset, ready, Diagnostic, Error, Action, Outcome, ok, err, or_raise, pure, ◌>>=◌,
}
use shortform_streaming.Playback.Assets.{transition_to, save_asset, mark_failed}

pub data ProviderStatus : Type 0 where
  encoding encoded broken : ProviderStatus

-- VideoAssetMetadata: `encoded` is the status `ready`, `broken` is `failed`.
pub record VideoAssetMetadata : Type 0 where
  pub status : ProviderStatus
  pub duration_seconds : Option ℕ
  pub renditions : ℕ
  pub thumbnail_count : ℕ
  pub has_captions : Bool

-- What `get_video_provider` and `get_asset` come to.
pub data ProviderAnswer : Type 0 where
  no_provider asset_not_found provider_error : ProviderAnswer
  metadata : VideoAssetMetadata → ProviderAnswer

abbrev pub is_encoded : ProviderStatus → Bool
is_encoded ProviderStatus.encoded = true
is_encoded _ = false

unfoldable pub ready_requirements_met : VideoAssetMetadata → Bool → Bool
ready_requirements_met m require_captions =
    if not (is_encoded m.status)
    then false
    else if ltb m.thumbnail_count 1
    then false
    else if m.renditions == 0
    then false
    else not (require_captions && not m.has_captions)

unfoldable pub with_metadata : VideoAssetMetadata → MediaAsset → MediaAsset
with_metadata m a = record a {
  duration_seconds = m.duration_seconds;
  renditions = m.renditions;
  thumbnail_count = m.thumbnail_count;
  has_captions = m.has_captions;
}

-- `try: … except IntegrityError`: the handler runs in the store before.
unfoldable pub or_handle : {A : Type 0} → Outcome A → Action A → Action A
or_handle (ok a db') handler db = ok a db'
or_handle (err Error.integrity_error) handler db = handler db
or_handle (err e) handler db = err e

unfoldable pub catch_integrity : {A : Type 0} → Action A → Action A → Action A
unfolding or_handle
catch_integrity body handler db = or_handle (body db) handler db

unfoldable pub save_and_return : MediaAsset → Action MediaAsset
unfolding save_asset
save_and_return a = do saved ← save_asset a; pure a

-- The provider says that the asset is ready.
unfoldable pub apply_ready : VideoAssetMetadata → MediaAsset → Action MediaAsset
unfolding mark_failed save_and_return catch_integrity ready_requirements_met
apply_ready m a =
    if not (ready_requirements_met m true)
    then mark_failed Diagnostic.requirements_missing a
    else do
      r ←
          or_raise (transition_to ready (record a { diagnostic_message = none }))
            Error.validation_error
      catch_integrity (save_and_return r) (mark_failed Diagnostic.another_ready r)

unfoldable pub apply_metadata : VideoAssetMetadata → MediaAsset → ProviderStatus → Action MediaAsset
unfolding apply_ready
apply_metadata m a ProviderStatus.broken = mark_failed Diagnostic.encoding_failed a
apply_metadata m a ProviderStatus.encoded = apply_ready m a
apply_metadata m a ProviderStatus.encoding =
    save_and_return (record a { diagnostic_message = none })

unfoldable pub apply_answer : ProviderAnswer → MediaAsset → Action MediaAsset
unfolding apply_metadata with_metadata
apply_answer no_provider a = mark_failed Diagnostic.provider_unset a
apply_answer asset_not_found a = mark_failed Diagnostic.asset_missing a
apply_answer provider_error a = mark_failed Diagnostic.check_failed a
apply_answer (metadata m) a = apply_metadata m (with_metadata m a) m.status

-- `_poll_and_apply`
unfoldable pub poll_and_apply : ProviderAnswer → MediaAsset → Action MediaAsset
unfolding apply_answer
poll_and_apply answer a =
    if is_some a.provider_asset_id
    then apply_answer answer a
    else mark_failed Diagnostic.id_missing a

-- `_poll_and_apply_safe`
unfoldable pub poll_and_apply_safe : ProviderAnswer → MediaAsset → Action MediaAsset
unfolding poll_and_apply
poll_and_apply_safe answer a =
    catch_integrity (poll_and_apply answer a) (mark_failed Diagnostic.update_failed a)
