-- ===== src/Playback/Reconciling.antt =====
-- backend/apps/playback/ingest.py, `reconcile`.
use shortform_streaming.Prelude.{
  ℕ, Bool, true, false, not, none, some, if◌then◌else◌, find, ◌==◌, is_some,
}
use shortform_streaming.Model.{
  MediaAsset, MediaAssetState, pending_upload, uploaded, processing, ready, failed, blocked,
  removed, Diagnostic, Environment, Store, Error, Action, gets, or_raise, raise_if, pure, ◌>>=◌,
  ◌>>◌,
}
use shortform_streaming.Catalog.Rights.{series_is_admitted}
use shortform_streaming.Catalog.Episodes.{lock_episode_for_access}
use shortform_streaming.Playback.Assets.{transition_to, has_other_active, save_asset, mark_failed}
use shortform_streaming.Playback.Polling.{ProviderAnswer, poll_and_apply_safe}

-- `_fresh_admitted_asset(asset, has_captions=asset.has_captions)`
unfoldable pub asset_is_admitted : Environment → ℕ → MediaAsset → Store → Bool
asset_is_admitted env now a db = elim (lock_episode_for_access db a.episode_id) [
  | none ↦ false
  | some e ↦
      series_is_admitted env.settings db now e.series
        (if a.has_captions then some a.captions_language else none)
]

-- What `reconcile` does in each state that it does not leave alone.
unfoldable pub retry_failed : ProviderAnswer → MediaAsset → Bool → Action MediaAsset
unfolding poll_and_apply_safe
retry_failed answer a true = mark_failed Diagnostic.active_exists a
retry_failed answer a false = do
  p ←
      or_raise (transition_to processing (record a { diagnostic_message = none }))
        Error.validation_error
  saved ← save_asset p
  poll_and_apply_safe answer p

unfoldable pub reconcile_incomplete : ProviderAnswer → MediaAsset → Action MediaAsset
reconcile_incomplete answer a =
    if is_some a.provider_asset_id
    then poll_and_apply_safe answer a
    else mark_failed Diagnostic.upload_incomplete a

unfoldable pub reconcile_state : ProviderAnswer → MediaAsset → MediaAssetState → Action MediaAsset
unfolding retry_failed reconcile_incomplete
reconcile_state answer a pending_upload = reconcile_incomplete answer a
reconcile_state answer a uploaded = reconcile_incomplete answer a
reconcile_state answer a failed = do other ← gets (has_other_active a); retry_failed answer a other
reconcile_state answer a _ = poll_and_apply_safe answer a

abbrev pub is_settled : MediaAssetState → Bool
is_settled ready = true
is_settled removed = true
is_settled blocked = true
is_settled _ = false

unfoldable pub reconcile_locked :
    Environment → ℕ → ProviderAnswer → MediaAsset → Bool → Action MediaAsset
unfolding reconcile_state asset_is_admitted
reconcile_locked env now answer a true = pure a
reconcile_locked env now answer a false = do
  admitted ← gets (asset_is_admitted env now a)
  raise_if (not admitted) Error.validation_error
  reconcile_state answer a a.state

unfoldable pub reconcile : Environment → ℕ → ProviderAnswer → ℕ → Action MediaAsset
unfolding reconcile_locked
reconcile env now answer pk = do
  a ← or_raise (← gets (λ db. find (λ x. x.pk == pk) db.assets)) Error.not_found
  reconcile_locked env now answer a (is_settled a.state)
