-- ===== src/Playback/Assets.antt =====
-- backend/apps/playback/models.py: the states of a media asset, and its saves.
use shortform_streaming.Prelude.{
  Bool, true, false, not, ◌&&◌, Option, none, some, map, if◌then◌else◌, any, ◌==◌,
}
use shortform_streaming.Model.{
  MediaAsset, MediaAssetState, pending_upload, uploaded, processing, ready, failed, blocked,
  removed, Diagnostic, Store, Error, Action, gets, modify, or_raise, raise_if, pure, ◌>>=◌, ◌>>◌,
}

-- IN_FLIGHT_STATES
abbrev pub in_flight : MediaAssetState → Bool
in_flight pending_upload = true
in_flight uploaded = true
in_flight processing = true
in_flight ready = true
in_flight _ = false

-- ALLOWED_TRANSITIONS: whether the second state stands in the set of the first.
unfoldable pub allowed : MediaAssetState → MediaAssetState → Bool
allowed pending_upload new = elim new [
  | pending_upload ↦ true
  | uploaded ↦ true
  | failed ↦ true
  | blocked ↦ true
  | removed ↦ true
  | _ ↦ false
]
allowed uploaded new = elim new [
  | uploaded ↦ true
  | processing ↦ true
  | failed ↦ true
  | blocked ↦ true
  | removed ↦ true
  | _ ↦ false
]
allowed processing new = elim new [
  | processing ↦ true
  | ready ↦ true
  | failed ↦ true
  | blocked ↦ true
  | removed ↦ true
  | _ ↦ false
]
allowed ready new = elim new [ ready ↦ true | blocked ↦ true | removed ↦ true | _ ↦ false ]
allowed failed new = elim new [
  | failed ↦ true
  | processing ↦ true
  | blocked ↦ true
  | removed ↦ true
  | _ ↦ false
]
allowed blocked new = elim new [ blocked ↦ true | removed ↦ true | _ ↦ false ]
allowed removed new = elim new [ removed ↦ true | _ ↦ false ]

unfoldable pub transition_to : MediaAssetState → MediaAsset → Option MediaAsset
unfolding allowed
transition_to new a = if allowed a.state new then some (record a { state = new }) else none

abbrev pub is_failed : MediaAssetState → Bool
is_failed failed = true
is_failed _ = false

abbrev pub is_removed : MediaAssetState → Bool
is_removed removed = true
is_removed _ = false

-- Another row of the episode in flight: what the unique constraints refuse beside a row in flight.
unfoldable pub has_other_active : MediaAsset → Store → Bool
has_other_active a db =
    any (λ x. x.episode_id == a.episode_id && not (x.pk == a.pk) && in_flight x.state) db.assets

unfoldable pub put_asset : MediaAsset → Store → Store
put_asset a db = record db { assets = map (λ x. if x.pk == a.pk then a else x) db.assets }

-- `asset.save()`; an IntegrityError where another row is in flight.
unfoldable pub save_asset : MediaAsset → Action (Unit {0})
unfolding has_other_active put_asset
save_asset a = do
  taken ← gets (has_other_active a)
  raise_if (in_flight a.state && taken) Error.integrity_error
  modify (put_asset a)

unfoldable pub failed_asset : Diagnostic → MediaAsset → Option MediaAsset
unfolding transition_to
failed_asset diagnostic a =
    let noted : MediaAsset = record a { diagnostic_message = some diagnostic } in
    if is_failed a.state then some noted else transition_to failed noted

-- `mark_failed`; a failed row is never in flight, so its save meets no constraint.
unfoldable pub mark_failed : Diagnostic → MediaAsset → Action MediaAsset
unfolding failed_asset put_asset
mark_failed diagnostic a = do
  f ← or_raise (failed_asset diagnostic a) Error.validation_error
  modify (put_asset f)
  pure f
