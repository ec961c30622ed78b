-- ===== src/Tests/Media.antt =====
-- The life of one media asset.
use shortform_streaming.Prelude.{ℕ, ◌≢◌, find, ◌==◌}
use shortform_streaming.Prelude.{
  ◌≡◌, ◌⊎◌, ◌≤◌, refl, true, false, none, some, [], ◌∷◌, Bool, is_some,
}
use shortform_streaming.Model.{MediaAsset, MediaAssetState, Store, ok, ◌>>=◌}
use shortform_streaming.Catalog.Context.{
  resolve_launch_context, valid_scope, territory_codes, language_codes, platform_codes,
  storefront_codes,
}
use shortform_streaming.Catalog.Rights.{series_is_admitted}
use shortform_streaming.Playback.Assets.{transition_to, save_asset}
use shortform_streaming.Playback.Polling.{
  ProviderStatus, ProviderAnswer, metadata, poll_and_apply_safe,
}
use shortform_streaming.Playback.Reconciling.{reconcile, asset_is_admitted}
use shortform_streaming.Playback.Takedown.{taken_down, takedown_failure, takedown_asset}
use shortform_streaming.Playback.Lifecycle.{stay, move, stage, Life-forward}
use mathlib.Core.List.{Memᴰ}
use shortform_streaming.Playback.Polled.{IsComplete}
use shortform_streaming.Playback.Reconciled.{reconcile_ready}
use shortform_streaming.Playback.Takedowns.{takedown_effect, takedown_commits}
use shortform_streaming.Prelude.{has_text, words}
use shortform_streaming.Catalog.Episodes.{lock_episode_for_access}
use shortform_streaming.Tests.World.{environment, asset, db}

abbrev pub gone : MediaAsset
gone = record asset { state = MediaAssetState.removed }

removing : transition_to MediaAssetState.removed asset ≡ some gone
unfolding transition_to
removing = refl

Life-forward_example : stage asset.state ≤ stage gone.state
Life-forward_example = Life-forward asset gone (move MediaAssetState.removed stay removing)

abbrev encoding : MediaAsset
encoding = record asset { state = MediaAssetState.processing; thumbnail_count = 0; renditions = 0 }

abbrev pending : Store
pending = record db { assets = encoding ∷ [] }

abbrev answer : ProviderAnswer
answer = metadata (record {
  status = ProviderStatus.encoded;
  duration_seconds = some 100;
  renditions = 1;
  thumbnail_count = 1;
  has_captions = true;
})

reconciled : reconcile environment 7 answer 1 pending ≡ ok asset db
unfolding reconcile asset_is_admitted lock_episode_for_access poll_and_apply_safe transition_to
    save_asset series_is_admitted resolve_launch_context has_text words valid_scope territory_codes
    language_codes platform_codes storefront_codes ◌>>=◌
reconciled = refl

reconcile_ready_example :
    (encoding.state ≡ MediaAssetState.ready)
    ⊎ (IsComplete answer encoding × (asset_is_admitted environment 7 encoding pending ≡ true))
reconcile_ready_example =
    reconcile_ready environment 7 answer 1 encoding asset pending db refl reconciled refl

pub takedown : takedown_asset taken_down 1 db ≡ ok (gone, false) (record db { assets = gone ∷ [] })
unfolding takedown_asset ◌>>=◌
takedown = refl

takedown_effect_example :
    (find (λ x. x.pk == 1) (gone ∷ []) ≡ some gone)
    × ((k : ℕ) → k ≢ 1 → find (λ x. x.pk == k) (gone ∷ []) ≡ find (λ x. x.pk == k) db.assets)
    × (((false ≡ false)
          × (takedown_failure (some 1) taken_down ≡ none)
          × (gone.state ≡ MediaAssetState.removed))
        ⊎ ((false ≡ true)
            × (is_some (takedown_failure (some 1) taken_down) ≡ true)
            × (gone.state ≡ asset.state)
            × (gone.provider_asset_id ≡ asset.provider_asset_id)))
takedown_effect_example =
    takedown_effect taken_down 1 asset gone false db (record db { assets = gone ∷ [] }) refl
      takedown

takedown_commits_example :
    (r : MediaAsset × Bool) × (db' : Store) × (takedown_asset taken_down 1 db ≡ ok r db')
takedown_commits_example = takedown_commits taken_down 1 asset db refl

pub only_row : (a x : MediaAsset) → Memᴰ x (a ∷ []) → x ≡ a
only_row a x (Memᴰ.head e) = e
only_row a x (Memᴰ.tail m) = elim m [ ]
