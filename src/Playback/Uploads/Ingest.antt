-- ===== src/Playback/Uploads/Ingest.antt =====
-- `ingest_master` of backend/apps/playback/ingest.py. `now` is the clock of the first admission check,
-- `later` that of the check before the provider is called.
use shortform_streaming.Prelude.{
  ℕ, String, Bool, false, not, Option, none, some, if◌then◌else◌, ltb, ◌==◌, is_some,
}
use shortform_streaming.Model.{
  MediaAsset, uploaded, Environment, Error, Action, gets, or_raise, raise_if, raise, pure, ◌>>=◌,
  ◌>>◌,
}
use shortform_streaming.Catalog.Publication.{StringMethods}
use shortform_streaming.Playback.Assets.{transition_to, save_asset}
use shortform_streaming.Playback.Polling.{ProviderAnswer}
use shortform_streaming.Playback.Reconciling.{reconcile}
use shortform_streaming.Playback.Takedown.{TakedownAnswer, takedown_failure}
use shortform_streaming.Playback.Uploads.{
  CaptionsFile, captions_are_valid, captions_fit, Master, min_master_bytes, language_or_english,
  fresh_admitted_episode, find_active_for_episode, failed_sibling, create_asset, mismatch,
  language_if,
}
use shortform_streaming.Playback.Uploads.Submitting.{
  SubmitAnswer, is_processing, submit_to_provider,
}

-- What the world answers during one upload.
pub record Answers : Type 0 where
  pub poll : ProviderAnswer
  pub expire : TakedownAnswer
  pub submit : SubmitAnswer

unfoldable pub existing_upload :
    Environment → ℕ → Answers → ℕ → MediaAsset → Action (MediaAsset × Bool)
existing_upload env later answers checksum a =
    if not (a.checksum == checksum)
    then raise Error.validation_error
    else if is_processing a.state
    then (do r ← reconcile env later answers.poll a.pk; pure (r, false))
    else pure (a, false)

-- A failed row is used again once the provider has forgotten its old master.
unfoldable pub reuse_failed :
    Environment → ℕ → Answers → String → Bool → MediaAsset → Action (MediaAsset × Bool)
unfolding submit_to_provider
reuse_failed env later answers language has_captions a = do
  raise_if (is_some (takedown_failure a.provider_asset_id answers.expire)) Error.video_unavailable
  let reset : MediaAsset = record a {
    provider_asset_id = none;
    captions_language = language;
    has_captions = has_captions;
  }
  saved ← save_asset reset
  submit_to_provider env later answers.submit has_captions reset

unfoldable pub fresh_upload :
    Environment → ℕ → Answers → ℕ → ℕ → String → Bool → Action (MediaAsset × Bool)
unfolding create_asset submit_to_provider
fresh_upload env later answers episode checksum language has_captions = do
  a ← create_asset episode checksum language has_captions
  u ← or_raise (transition_to uploaded a) Error.validation_error
  saved ← save_asset u
  submit_to_provider env later answers.submit has_captions u

unfoldable pub upload_or_reuse :
    Environment
    → ℕ
    → Answers
    → ℕ
    → ℕ
    → String
    → Bool
    → Option MediaAsset
    → Action (MediaAsset × Bool)
unfolding reuse_failed fresh_upload
upload_or_reuse env later answers episode checksum language has_captions (some f) =
    reuse_failed env later answers language has_captions f
upload_or_reuse env later answers episode checksum language has_captions none =
    fresh_upload env later answers episode checksum language has_captions

unfoldable pub upload_or_existing :
    Environment
    → ℕ
    → Answers
    → ℕ
    → ℕ
    → String
    → Bool
    → Option MediaAsset
    → Action (MediaAsset × Bool)
unfolding existing_upload upload_or_reuse
upload_or_existing env later answers episode checksum language has_captions (some a) =
    existing_upload env later answers checksum a
upload_or_existing env later answers episode checksum language has_captions none = do
  sibling ← gets (failed_sibling episode checksum)
  upload_or_reuse env later answers episode checksum language has_captions sibling

-- `ingest_master`; `expected` is `none` for a blank checksum.
unfoldable pub ingest_master :
    Environment
    → StringMethods
    → ℕ
    → ℕ
    → Answers
    → ℕ
    → Master
    → Option CaptionsFile
    → String
    → Option ℕ
    → Action (MediaAsset × Bool)
unfolding fresh_admitted_episode upload_or_existing captions_are_valid
ingest_master env str now later answers pk video captions captions_language expected = do
  let language = language_or_english str captions_language
  let has_captions = is_some captions
  e ← fresh_admitted_episode env now (language_if has_captions language) pk
  raise_if (ltb video.size min_master_bytes) Error.validation_error
  raise_if (mismatch expected video.checksum) Error.validation_error
  raise_if (not (captions_fit captions)) Error.validation_error
  existing ← gets (find_active_for_episode e.pk)
  upload_or_existing env later answers e.pk video.checksum language has_captions existing
