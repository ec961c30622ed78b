-- ===== src/Playback/Uploads/Staff.antt =====
-- `begin_staff_upload` and `complete_staff_upload` of backend/apps/playback/ingest.py. A checksum is
-- `none` where its text is no SHA-256 digest.
use shortform_streaming.Prelude.{
  ℕ, String, Bool, true, false, not, Option, none, some, if◌then◌else◌, find, ltb, ◌==◌, is_some,
  after_prefix, contains, [], ◌∷◌,
}
use shortform_streaming.Model.{
  MediaAsset, MediaAssetState, pending_upload, uploaded, processing, ready, failed, blocked,
  removed, Environment, Error, Action, gets, or_raise, raise_if, raise, pure, ◌>>=◌, ◌>>◌,
}
use shortform_streaming.Catalog.Publication.{StringMethods}
use shortform_streaming.Playback.Assets.{transition_to, save_asset}
use shortform_streaming.Playback.Uploads.{
  CaptionsFile, captions_fit, Master, min_master_bytes, language_or_english, fresh_admitted_episode,
  find_active_for_episode, create_asset,
}
use shortform_streaming.Playback.Uploads.Submitting.{SubmitAnswer, admits_asset, submit_to_provider}

-- What `store.mint_put_url` comes to: an exception, or a URL and when it expires.
pub data MintAnswer : Type 0 where
  mint_failed : MintAnswer
  minted_url : String → ℕ → MintAnswer

-- `_mint_staff_put`: `none` where it raises, after the row is committed.
unfoldable pub mint_staff_put : MintAnswer → Option (String × ℕ)
mint_staff_put mint_failed = none
mint_staff_put (minted_url url expires_at) =
    if is_some (after_prefix "https://" url) then some (url, expires_at) else none

abbrev is_pending : MediaAssetState → Bool
is_pending pending_upload = true
is_pending _ = false

unfoldable pub relabel :
    Option (String × ℕ) → String → MediaAsset → Bool → Action (MediaAsset × Option (String × ℕ))
relabel put language a true = pure (a, put)
relabel put language a false = do
  let relabelled : MediaAsset = record a { captions_language = language }
  saved ← save_asset relabelled
  pure (relabelled, put)

-- The row that is pending takes the language of this call.
unfoldable pub begin_again :
    Option (String × ℕ) → ℕ → String → MediaAsset → Action (MediaAsset × Option (String × ℕ))
unfolding relabel
begin_again put checksum language a = do
  raise_if (not (a.checksum == checksum)) Error.validation_error
  raise_if (not (is_pending a.state)) Error.validation_error
  relabel put language a (contains language (a.captions_language ∷ []))

unfoldable pub begin_with :
    Option (String × ℕ)
    → ℕ
    → ℕ
    → String
    → Option MediaAsset
    → Action (MediaAsset × Option (String × ℕ))
unfolding begin_again create_asset
begin_with put episode checksum language (some a) = begin_again put checksum language a
begin_with put episode checksum language none = do
  a ← create_asset episode checksum language false
  pure (a, put)

-- `begin_staff_upload`; `configured` says whether there is an object store.
unfoldable pub begin_staff_upload :
    Environment
    → StringMethods
    → ℕ
    → Bool
    → MintAnswer
    → ℕ
    → Option ℕ
    → String
    → Action (MediaAsset × Option (String × ℕ))
unfolding fresh_admitted_episode begin_with mint_staff_put
begin_staff_upload env str now configured mint pk expected captions_language = do
  e ← fresh_admitted_episode env now none pk
  checksum ← or_raise expected Error.validation_error
  raise_if (not configured) Error.validation_error
  existing ← gets (find_active_for_episode e.pk)
  begin_with (mint_staff_put mint) e.pk checksum (language_or_english str captions_language)
      existing

-- `_fresh_admitted_asset`
unfoldable pub fresh_admitted_asset : Environment → ℕ → Bool → ℕ → Action MediaAsset
unfolding admits_asset
fresh_admitted_asset env now has_captions pk = do
  a ← or_raise (← gets (λ db. find (λ x. x.pk == pk) db.assets)) Error.not_found
  admitted ← gets (admits_asset env now has_captions a)
  raise_if (not admitted) Error.validation_error
  pure a

-- The row that the object's bytes claim.
unfoldable pub claimed : Bool → MediaAsset → Option MediaAsset
unfolding transition_to
claimed has_captions a = transition_to uploaded (record a { has_captions = has_captions })

-- The claim of a pending row, then the provider's call after the commit.
unfoldable pub claim_and_submit :
    Environment → ℕ → Option Master → SubmitAnswer → Bool → MediaAsset → Action (MediaAsset × Bool)
unfolding claimed submit_to_provider
claim_and_submit env later object answer has_captions a = do
  video ← or_raise object Error.validation_error
  raise_if (ltb video.size min_master_bytes) Error.validation_error
  raise_if (not (video.checksum == a.checksum)) Error.validation_error
  u ← or_raise (claimed has_captions a) Error.validation_error
  saved ← save_asset u
  submit_to_provider env later answer has_captions u

unfoldable pub complete_locked :
    Environment
    → ℕ
    → Option Master
    → SubmitAnswer
    → Bool
    → MediaAsset
    → MediaAssetState
    → Action (MediaAsset × Bool)
unfolding claim_and_submit
complete_locked env later object answer c a pending_upload =
    claim_and_submit env later object answer c a
complete_locked env later object answer c a uploaded = pure (a, false)
complete_locked env later object answer c a processing = pure (a, false)
complete_locked env later object answer c a ready = pure (a, false)
complete_locked env later object answer c a failed = raise Error.validation_error
complete_locked env later object answer c a blocked = raise Error.validation_error
complete_locked env later object answer c a removed = raise Error.validation_error

-- `complete_staff_upload`; `object` is the object at the row's key, `none` where there is none.
unfoldable pub complete_staff_upload :
    Environment
    → ℕ
    → ℕ
    → Bool
    → Option Master
    → SubmitAnswer
    → Option CaptionsFile
    → ℕ
    → Action (MediaAsset × Bool)
unfolding fresh_admitted_asset complete_locked
complete_staff_upload env now later configured object answer captions pk = do
  let has_captions = is_some captions
  a ← fresh_admitted_asset env now has_captions pk
  raise_if (not (captions_fit captions)) Error.validation_error
  raise_if (not configured) Error.validation_error
  complete_locked env later object answer has_captions a a.state
