-- ===== src/Playback/Uploads/Submitting.antt =====
-- `_submit_to_provider` of backend/apps/playback/ingest.py. The answer of a call says whether it
-- raised after its writes were committed. `later` is the clock of the check before the provider is
-- called.
use shortform_streaming.Prelude.{
  ℕ, Bool, true, false, Option, none, some, if◌then◌else◌, find, ◌==◌,
}
use shortform_streaming.Model.{
  MediaAsset, MediaAssetState, processing, Diagnostic, Environment, Store, Error, Action, gets,
  or_raise, pure, ◌>>=◌,
}
use shortform_streaming.Catalog.Rights.{series_is_admitted}
use shortform_streaming.Catalog.Episodes.{lock_episode_for_access}
use shortform_streaming.Playback.Assets.{transition_to, save_asset, mark_failed}
use shortform_streaming.Playback.Polling.{catch_integrity}
use shortform_streaming.Playback.Uploads.{language_if}

-- What `provider.submit_master` comes to.
pub data SubmitAnswer : Type 0 where
  unset_provider refused_master : SubmitAnswer
  accepted_master : ℕ → SubmitAnswer

abbrev pub is_processing : MediaAssetState → Bool
is_processing processing = true
is_processing _ = false

-- The row that has been submitted.
unfoldable pub submitted : ℕ → Bool → MediaAsset → Option MediaAsset
submitted id has_captions a =
    let known : MediaAsset = record a {
      provider_asset_id = some id;
      has_captions = has_captions;
      diagnostic_message = none;
    } in
    if is_processing a.state then some known else transition_to processing known

unfoldable pub save_quietly : MediaAsset → Action (MediaAsset × Bool)
unfolding save_asset
save_quietly a = do saved ← save_asset a; pure (a, false)

unfoldable pub fail_quietly : Diagnostic → MediaAsset → Action (MediaAsset × Bool)
unfolding mark_failed
fail_quietly diagnostic a = do f ← mark_failed diagnostic a; pure (f, false)

unfoldable pub apply_submit : SubmitAnswer → Bool → MediaAsset → Action (MediaAsset × Bool)
unfolding submitted save_quietly fail_quietly catch_integrity
apply_submit unset_provider has_captions a = fail_quietly Diagnostic.provider_unset a
apply_submit refused_master has_captions a = fail_quietly Diagnostic.submit_failed a
apply_submit (accepted_master id) has_captions a = do
  p ← or_raise (submitted id has_captions a) Error.validation_error
  catch_integrity (save_quietly p) (pure (a, true))

-- `_fresh_admitted_asset(asset, has_captions=…)`
unfoldable pub admits_asset : Environment → ℕ → Bool → MediaAsset → Store → Bool
admits_asset env now has_captions a db = elim (lock_episode_for_access db a.episode_id) [
  | none ↦ false
  | some e ↦
      series_is_admitted env.settings db now e.series (language_if has_captions a.captions_language)
]

-- A title that is no longer admitted raises, and the committed row stays as it is.
unfoldable pub submit_if : SubmitAnswer → Bool → MediaAsset → Bool → Action (MediaAsset × Bool)
unfolding apply_submit
submit_if answer has_captions a true = apply_submit answer has_captions a
submit_if answer has_captions a false = pure (a, true)

-- `_submit_to_provider`
unfoldable pub submit_to_provider :
    Environment → ℕ → SubmitAnswer → Bool → MediaAsset → Action (MediaAsset × Bool)
unfolding admits_asset submit_if
submit_to_provider env later answer has_captions a = do
  row ← or_raise (← gets (λ db. find (λ x. x.pk == a.pk) db.assets)) Error.not_found
  admitted ← gets (admits_asset env later has_captions row)
  submit_if answer has_captions row admitted
