-- ===== src/Playback/Uploads.antt =====
-- backend/apps/playback/ingest.py: what a master that staff upload must satisfy, and the rows it is
-- written to. Rows stand with the latest first.
pub mod Submitting
pub mod Staff
pub mod Claims
pub mod Ingest
pub mod OneActive
use shortform_streaming.Prelude.{
  ℕ, String, Bool, true, false, not, ◌&&◌, Option, none, some, ◌∷◌, if◌then◌else◌, find, ltb, ◌==◌,
  is_some, is_space, after_prefix,
}
use Prim.Native.Char.{code}
use shortform_streaming.Model.{
  Episode, LoadedEpisode, MediaAsset, MediaAssetState, pending_upload, uploaded, processing,
  Diagnostic, Environment, Store, Error, Action, gets, modify, or_raise, raise_if, raise, fresh,
  pure, ◌>>=◌, ◌>>◌,
}
use shortform_streaming.Catalog.Rights.{series_is_admitted}
use shortform_streaming.Catalog.Episodes.{lock_episode_for_access}
use shortform_streaming.Catalog.Publication.{StringMethods}
use shortform_streaming.Playback.Assets.{
  in_flight, is_failed, transition_to, has_other_active, save_asset, mark_failed,
}
use shortform_streaming.Playback.Polling.{ProviderAnswer, catch_integrity}
use shortform_streaming.Playback.Reconciling.{reconcile}
use shortform_streaming.Playback.Takedown.{TakedownAnswer, takedown_failure}

-- The bytes of captions: whether any is no whitespace, and their text where they are UTF-8.
pub record CaptionsFile : Type 0 where
  pub has_content : Bool
  pub decoded : Option String

abbrev starts_with_webvtt : String → Bool
starts_with_webvtt String.[] = false
starts_with_webvtt (String.◌∷◌ c s) =
    let rest = starts_with_webvtt s in
    if is_space (code c) then rest else is_some (after_prefix "WEBVTT" (String.◌∷◌ c s))

-- `captions_are_valid`
unfoldable pub captions_are_valid : CaptionsFile → Bool
captions_are_valid file = elim file.decoded [
  | none ↦ false
  | some text ↦ file.has_content && starts_with_webvtt text
]

abbrev pub captions_fit : Option CaptionsFile → Bool
captions_fit none = true
captions_fit (some file) = captions_are_valid file

-- The bytes of a master: their number and their SHA-256.
pub record Master : Type 0 where
  pub size : ℕ
  pub checksum : ℕ

abbrev pub min_master_bytes : ℕ
min_master_bytes = 8

-- `captions_language.strip().lower() or "en"`
abbrev pub language_or_english : StringMethods → String → String
language_or_english str s = elim (str.lower (str.strip s)) [
  | String.[] ↦ "en"
  | String.◌∷◌ c l ↦ String.◌∷◌ c l
]

-- `_fresh_admitted_episode`
unfoldable pub fresh_admitted_episode : Environment → ℕ → Option String → ℕ → Action LoadedEpisode
fresh_admitted_episode env now captions pk = do
  e ← or_raise (← gets (λ db. lock_episode_for_access db pk)) Error.not_found
  admitted ← gets (λ db. series_is_admitted env.settings db now e.series captions)
  raise_if (not admitted) Error.validation_error
  pure e

-- `find_active_for_episode`
unfoldable pub find_active_for_episode : ℕ → Store → Option MediaAsset
find_active_for_episode episode db =
    find (λ a. a.episode_id == episode && in_flight a.state) db.assets

-- The latest failed row of the episode with the same bytes.
unfoldable pub failed_sibling : ℕ → ℕ → Store → Option MediaAsset
failed_sibling episode checksum db =
    find (λ a. a.episode_id == episode && a.checksum == checksum && is_failed a.state) db.assets

abbrev pub new_asset : ℕ → ℕ → ℕ → String → Bool → MediaAsset
new_asset pk episode checksum language has_captions = record {
  pk = pk;
  episode_id = episode;
  checksum = checksum;
  provider_asset_id = none;
  state = pending_upload;
  captions_language = language;
  has_captions = has_captions;
  thumbnail_count = 0;
  duration_seconds = none;
  renditions = 0;
  diagnostic_message = none;
}

-- The insert of a pending row; the constraint refuses it beside a row in flight.
unfoldable pub insert_asset : MediaAsset → Action MediaAsset
unfolding has_other_active
insert_asset a = do
  taken ← gets (has_other_active a)
  raise_if taken Error.integrity_error
  modify (λ db. record db { assets = a ∷ db.assets })
  pure a

-- An IntegrityError of the insert is a ValidationError.
unfoldable pub create_asset : ℕ → ℕ → String → Bool → Action MediaAsset
unfolding insert_asset catch_integrity
create_asset episode checksum language has_captions = do
  pk ← fresh
  catch_integrity (insert_asset (new_asset pk episode checksum language has_captions))
      (raise Error.validation_error)

abbrev pub language_if : Bool → String → Option String
language_if true language = some language
language_if false language = none

abbrev pub mismatch : Option ℕ → ℕ → Bool
mismatch none checksum = false
mismatch (some expected) checksum = not (expected == checksum)
