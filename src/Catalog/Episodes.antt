-- ===== src/Catalog/Episodes.antt =====
-- backend/apps/catalog/eligibility.py: episodes and their media. backend/apps/catalog/locking.py.
use text.Mathlib.Text.{◌==◌ as str_eq}
use shortform_streaming.Prelude.{
  ℕ, Bool, true, false, not, ◌&&◌, ◌||◌, Option, none, some, if◌then◌else◌, any, find, ltb, ◌==◌,
}
use shortform_streaming.Model.{
  Settings, Series, Episode, LoadedEpisode, MediaAsset, MediaAssetState, Store,
}
use shortform_streaming.Catalog.Context.{LaunchContext, resolve_launch_context}
use shortform_streaming.Catalog.Rights.{started, not_ended, has_matching_right, series_is_admitted}
use shortform_streaming.Catalog.Eligibility.{is_published, has_metadata, series_is_eligible}

-- `episode_window_is_open`
unfoldable pub episode_window_is_open : Episode → ℕ → Bool
episode_window_is_open e now = elim e.window_starts_at [
  | none ↦ elim e.window_ends_at [ none ↦ true | some t ↦ ltb now t ]
  | some s ↦ if ltb now s then false else elim e.window_ends_at [ none ↦ true | some t ↦ ltb now t ]
]

abbrev pub is_ready : MediaAssetState → Bool
is_ready MediaAssetState.ready = true
is_ready _ = false

-- The captions of an asset of a licensed series are licensed too.
unfoldable pub admits_captions : Store → LaunchContext → ℕ → Series → MediaAsset → Bool
admits_captions db context now series a =
    series.self_owned
    || not a.has_captions
    || has_matching_right db context now series (some a.captions_language)

unfoldable pub is_admitted_asset : Store → LaunchContext → ℕ → Series → MediaAsset → Bool
unfolding admits_captions
is_admitted_asset db context now series a =
    is_ready a.state
    && (str_eq context.language series.original_language
        || (a.has_captions && str_eq a.captions_language context.language))
    && admits_captions db context now series a

-- `admitted_media_assets(series, now).filter(episode_id=pk).exists()`
unfoldable pub has_admitted_asset : Settings → Store → ℕ → Series → ℕ → Bool
unfolding is_admitted_asset
has_admitted_asset settings db now series pk = elim (resolve_launch_context settings) [
  | none ↦ false
  | some context ↦
      if series_is_admitted settings db now series none
      then any (λ a. a.episode_id == pk && is_admitted_asset db context now series a) db.assets
      else false
]

-- The row `e` is in `eligible_episodes_for_series(series, now)`.
unfoldable pub in_eligible_episodes : Settings → Store → ℕ → Series → Episode → Bool
unfolding has_admitted_asset
in_eligible_episodes settings db now series e = elim (resolve_launch_context settings) [
  | none ↦ false
  | some context ↦
      series_is_eligible settings db now series
      && e.series_id == series.pk
      && is_published e.publication_status
      && started e.window_starts_at now
      && not_ended e.window_ends_at now
      && has_metadata db.regex_space context.language e.title e.synopsis e.translations
      && has_admitted_asset settings db now series e.pk
]

unfoldable pub episode_is_eligible : Settings → Store → ℕ → LoadedEpisode → Bool
unfolding in_eligible_episodes
episode_is_eligible settings db now e =
    is_published e.publication_status
    && any (λ row. row.pk == e.pk && in_eligible_episodes settings db now e.series row) db.episodes

-- `lock_episode_for_access`: the episode with its series, under the locks of a transaction.
unfoldable pub lock_episode_for_access : Store → ℕ → Option LoadedEpisode
lock_episode_for_access db pk = elim (find (λ e. e.pk == pk) db.episodes) [
  | none ↦ none
  | some episode ↦ elim (find (λ s. s.pk == episode.series_id) db.series) [
    | none ↦ none
    | some series ↦ some (record { episode = episode; series = series })
  ]
]

-- The key by the public id, then the lock.
unfoldable pub lock_episode_by_public_id : Store → ℕ → Option LoadedEpisode
unfolding lock_episode_for_access
lock_episode_by_public_id db public_id = elim (find (λ e. e.public_id == public_id) db.episodes) [
  | none ↦ none
  | some e ↦ lock_episode_for_access db e.pk
]
