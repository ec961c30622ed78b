-- ===== src/Playback/Lifecycle.antt =====
-- The order of the states of a media asset (backend/apps/playback/models.py).
use shortform_streaming.Prelude.{ℕ, ◌≤◌, ◌≡◌, true, some, arith}
use shortform_streaming.Model.{MediaAsset, MediaAssetState, ready, blocked, removed}
use shortform_streaming.Playback.Assets.{allowed, transition_to}

-- How far an asset is withdrawn from production.
abbrev pub stage : MediaAssetState → ℕ
stage ready = 1
stage blocked = 2
stage removed = 3
stage _ = 0

-- Rows that one asset goes through by `transition_to`.
pub data Life (a : MediaAsset) : MediaAsset → Type 0 where
  stay : Life a a
  move :
      {b c : MediaAsset} (new : MediaAssetState)
      → Life a b
      → transition_to new b ≡ some c
      → Life a c

allowed-stage : (s t : MediaAssetState) → allowed s t ≡ true → stage s ≤ stage t
unfolding allowed
allowed-stage s t h = ground arith

transition-stage :
    (new : MediaAssetState) (a b : MediaAsset)
    → transition_to new a ≡ some b
    → stage a.state ≤ stage b.state
unfolding transition_to
transition-stage new a b h = ground (arith, allowed-stage a.state new)

-- An asset never goes back: once ready it is only ready, blocked or removed, once blocked only
-- blocked or removed, and once removed it stays removed, however often it is moved.
pub Life-forward : (a b : MediaAsset) → Life a b → stage a.state ≤ stage b.state
Life-forward a _ stay = omega arith
Life-forward a c (move {b = b} new life h) =
    omega (arith, Life-forward a b life, transition-stage new b c h)
