-- ===== src/Catalog/Gate.antt =====
-- `episode_is_eligible` of backend/apps/catalog/eligibility.py.
use mathlib.Core.List.{Memᴰ}
use shortform_streaming.Prelude.{
  ℕ, ◌≡◌, ◌∙◌, true, none, arith, ◌==◌, ◌&&◌, Option-cases, inl, inr, any_witness, false,
}
use shortform_streaming.Model.{
  Settings, Store, Series, Episode, LoadedEpisode, MediaAsset, MediaAssetState, PublicationStatus,
}
use shortform_streaming.Catalog.Context.{resolve_launch_context}
use shortform_streaming.Catalog.Rights.{series_is_admitted}
use shortform_streaming.Catalog.Eligibility.{series_is_eligible}
use shortform_streaming.Catalog.Episodes.{
  is_admitted_asset, has_admitted_asset, in_eligible_episodes, episode_is_eligible,
  episode_window_is_open,
}

-- A stored row of the episode that is published within its window, and a stored asset of it that
-- is ready; the series is eligible and admitted, and not taken down.
pub record IsPlayable (settings : Settings) (db : Store) (now : ℕ) (e : LoadedEpisode)
    : Type 0 where
  pub row : Episode
  pub stored : Memᴰ row db.episodes
  pub same_key : row.pk ≡ e.pk
  pub same_series : row.series_id ≡ e.series.pk
  pub published : row.publication_status ≡ PublicationStatus.published
  pub in_window : episode_window_is_open row now ≡ true
  pub asset : MediaAsset
  pub asset_stored : Memᴰ asset db.assets
  pub asset_of_episode : asset.episode_id ≡ e.pk
  pub asset_ready : asset.state ≡ MediaAssetState.ready
  pub series_eligible : series_is_eligible settings db now e.series ≡ true
  pub series_admitted : series_is_admitted settings db now e.series none ≡ true
  pub not_taken_down : e.series.takedown ≡ false

admitted-takedown :
    (settings : Settings) (db : Store) (now : ℕ) (s : Series)
    → series_is_admitted settings db now s none ≡ true
    → s.takedown ≡ false
unfolding series_is_admitted
admitted-takedown settings db now s h = ground arith

asset_witness :
    (settings : Settings) (db : Store) (now : ℕ) (s : Series) (pk : ℕ)
    → has_admitted_asset settings db now s pk ≡ true
    → (series_is_admitted settings db now s none ≡ true)
      × (a : MediaAsset) × Memᴰ a db.assets
      × (a.episode_id ≡ pk)
      × (a.state ≡ MediaAssetState.ready)
unfolding has_admitted_asset
asset_witness settings db now s pk h = elim (Option-cases (resolve_launch_context settings)) [
  | inl e ↦ absurd (ground arith)
  | inr (context, e) ↦
      let (a, m, q) =
        any_witness (λ a. a.episode_id == pk && is_admitted_asset db context now s a) db.assets
          (ground arith) in
      (ground arith, a, m, ground arith, ground arith)
]

row_facts :
    (settings : Settings) (db : Store) (now : ℕ) (s : Series) (e : Episode)
    → in_eligible_episodes settings db now s e ≡ true
    → (e.publication_status ≡ PublicationStatus.published)
      × (e.series_id ≡ s.pk)
      × (episode_window_is_open e now ≡ true)
      × (series_is_eligible settings db now s ≡ true)
      × (has_admitted_asset settings db now s e.pk ≡ true)
unfolding in_eligible_episodes episode_window_is_open
row_facts settings db now s e h = ground arith

-- An episode that `episode_is_eligible` accepts is playable.
pub episode_is_eligible-IsPlayable :
    (settings : Settings) (db : Store) (now : ℕ) (e : LoadedEpisode)
    → episode_is_eligible settings db now e ≡ true
    → IsPlayable settings db now e
unfolding episode_is_eligible
episode_is_eligible-IsPlayable settings db now e h =
    let (row, stored, q) =
      any_witness (λ row. row.pk == e.pk && in_eligible_episodes settings db now e.series row)
        db.episodes (ground arith) in
    let key : row.pk ≡ e.pk = ground arith in
    let (published, same_series, in_window, eligible, has_asset) =
      row_facts settings db now e.series row (ground arith) in
    let (admitted, asset, asset_stored, of_row, ready) =
      asset_witness settings db now e.series row.pk has_asset in
    record {
      row = row;
      stored = stored;
      same_key = key;
      same_series = same_series;
      published = published;
      in_window = in_window;
      asset = asset;
      asset_stored = asset_stored;
      asset_of_episode = of_row ∙ key;
      asset_ready = ready;
      series_eligible = eligible;
      series_admitted = admitted;
      not_taken_down = admitted-takedown settings db now e.series admitted;
    }
