-- ===== src/Playback/Takedown.antt =====
-- backend/apps/playback/ingest.py, `takedown_asset`.
use shortform_streaming.Prelude.{
  ℕ, Bool, true, false, Option, none, some, if◌then◌else◌, find, ◌==◌,
}
use shortform_streaming.Model.{
  MediaAsset, removed, Diagnostic, Error, Action, gets, modify, or_raise, pure, ◌>>=◌, ◌>>◌,
}
use shortform_streaming.Playback.Assets.{transition_to, is_removed, put_asset}

-- What `provider.takedown` comes to.
pub data TakedownAnswer : Type 0 where
  unset_provider taken_down already_gone takedown_error : TakedownAnswer

abbrev pub takedown_failure : Option ℕ → TakedownAnswer → Option Diagnostic
takedown_failure none answer = none
takedown_failure (some id) unset_provider = some Diagnostic.provider_unset
takedown_failure (some id) takedown_error = some Diagnostic.takedown_failed
takedown_failure (some id) _ = none

-- The committed row, and whether VideoProviderError is raised after the commit.
unfoldable pub take_down : MediaAsset → Option Diagnostic → Action (MediaAsset × Bool)
unfolding transition_to put_asset
take_down a (some failure) = do
  let noted : MediaAsset = record a { diagnostic_message = some failure }
  modify (put_asset noted)
  pure (noted, true)
take_down a none = do
  r ←
      or_raise (if is_removed a.state then some a else transition_to removed a)
        Error.validation_error
  modify (put_asset r)
  pure (r, false)

unfoldable pub takedown_asset : TakedownAnswer → ℕ → Action (MediaAsset × Bool)
unfolding take_down
takedown_asset answer pk = do
  a ← or_raise (← gets (λ db. find (λ x. x.pk == pk) db.assets)) Error.not_found
  take_down a (takedown_failure a.provider_asset_id answer)
