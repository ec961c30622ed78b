-- ===== src/Playback/Polled.antt =====
-- `_poll_and_apply` of backend/apps/playback/ingest.py and the state `ready`.
use shortform_streaming.Prelude.{◌≤◌, ◌≡◌, refl, true, arith, ◌⊎◌, inl, inr, is_some, Bool-cases}
use shortform_streaming.Model.{
  MediaAsset, ready, failed, Diagnostic, Store, Error, Action, Outcome, ok, err, ◌>>=◌,
}
use shortform_streaming.Playback.Assets.{transition_to, save_asset, failed_asset, mark_failed}
use shortform_streaming.Playback.Polling.{
  VideoAssetMetadata, ProviderStatus, ProviderAnswer, no_provider, asset_not_found, provider_error,
  metadata, ready_requirements_met, with_metadata, save_and_return, apply_ready, apply_metadata,
  apply_answer, poll_and_apply, poll_and_apply_safe, or_handle, catch_integrity,
}

-- The provider's answer is enough for a ready asset.
pub record IsComplete (answer : ProviderAnswer) (a : MediaAsset) : Type 0 where
  pub facts : VideoAssetMetadata
  pub answered : answer ≡ metadata facts
  pub encoded : facts.status ≡ ProviderStatus.encoded
  pub thumbnails : 1 ≤ facts.thumbnail_count
  pub has_renditions : 1 ≤ facts.renditions
  pub captioned : facts.has_captions ≡ true
  pub known : is_some a.provider_asset_id ≡ true

pub failed_is_not_ready :
    (d : Diagnostic) (a r : MediaAsset) (db db' : Store)
    → mark_failed d a db ≡ ok r db'
    → r.state ≡ failed
unfolding mark_failed failed_asset transition_to ◌>>=◌
failed_is_not_ready d a r db db' h = ground arith

apply_ready-requirements :
    (m : VideoAssetMetadata) (a r : MediaAsset) (db db' : Store)
    → apply_ready m a db ≡ ok r db'
    → r.state ≡ ready
    → ready_requirements_met m true ≡ true
unfolding apply_ready mark_failed failed_asset transition_to ready_requirements_met ◌>>=◌
apply_ready-requirements m a r db db' h s = ground arith

requirements-parts :
    (m : VideoAssetMetadata)
    → ready_requirements_met m true ≡ true
    → (m.status ≡ ProviderStatus.encoded)
      × (1 ≤ m.thumbnail_count)
      × (1 ≤ m.renditions)
      × (m.has_captions ≡ true)
unfolding ready_requirements_met
requirements-parts m h = ground arith

metadata_ready :
    (m : VideoAssetMetadata) (st : ProviderStatus) (a r : MediaAsset) (db db' : Store)
    → apply_metadata m (with_metadata m a) st db ≡ ok r db'
    → r.state ≡ ready
    → (ready_requirements_met m true ≡ true) ⊎ (a.state ≡ ready)
unfolding apply_metadata mark_failed failed_asset transition_to save_and_return save_asset
    with_metadata ◌>>=◌
metadata_ready m ProviderStatus.broken a r db db' h s = ground arith
metadata_ready m ProviderStatus.encoded a r db db' h s =
    inl (apply_ready-requirements m (with_metadata m a) r db db' h s)
metadata_ready m ProviderStatus.encoding a r db db' h s = ground arith

answer_ready :
    (answer : ProviderAnswer) (a r : MediaAsset) (db db' : Store)
    → is_some a.provider_asset_id ≡ true
    → apply_answer answer a db ≡ ok r db'
    → r.state ≡ ready
    → IsComplete answer a ⊎ (a.state ≡ ready)
unfolding apply_answer
answer_ready no_provider a r db db' k h s = absurd (cc (failed_is_not_ready _ a r db db' h, s))
answer_ready asset_not_found a r db db' k h s = absurd (cc (failed_is_not_ready _ a r db db' h, s))
answer_ready provider_error a r db db' k h s = absurd (cc (failed_is_not_ready _ a r db db' h, s))
answer_ready (metadata m) a r db db' k h s = elim (metadata_ready m m.status a r db db' h s) [
  | inr was ↦ inr was
  | inl met ↦
      let (encoded, thumbs, rends, caps) = requirements-parts m met in
      inl (record {
        facts = m;
        answered = refl;
        encoded = encoded;
        thumbnails = thumbs;
        has_renditions = rends;
        captioned = caps;
        known = k;
      })
]

handled :
    {A : Type 0} (o : Outcome A) (handler : Action A) (db db' : Store) (x : A)
    → or_handle o handler db ≡ ok x db'
    → (o ≡ ok x db') ⊎ (handler db ≡ ok x db')
unfolding or_handle
handled (ok a s) handler db db' x h = inl h
handled (err Error.integrity_error) handler db db' x h = inr h
handled (err Error.not_found) handler db db' x h = absurd (cc h)
handled (err Error.coin_unavailable) handler db db' x h = absurd (cc h)
handled (err Error.reward_unavailable) handler db db' x h = absurd (cc h)
handled (err Error.purchase_unavailable) handler db db' x h = absurd (cc h)
handled (err Error.invalid_callback) handler db db' x h = absurd (cc h)
handled (err Error.authentication_failed) handler db db' x h = absurd (cc h)
handled (err Error.token_revoked) handler db db' x h = absurd (cc h)
handled (err Error.reauthentication_required) handler db db' x h = absurd (cc h)
handled (err Error.verification_unavailable) handler db db' x h = absurd (cc h)
handled (err Error.video_unavailable) handler db db' x h = absurd (cc h)
handled (err Error.validation_error) handler db db' x h = absurd (cc h)

unsafe_poll_ready :
    (answer : ProviderAnswer) (a r : MediaAsset) (db db' : Store)
    → poll_and_apply answer a db ≡ ok r db'
    → r.state ≡ ready
    → IsComplete answer a ⊎ (a.state ≡ ready)
unfolding poll_and_apply
unsafe_poll_ready answer a r db db' h s = elim (Bool-cases (is_some a.provider_asset_id)) [
  | inl k ↦ answer_ready answer a r db db' k (rw k at h) s
  | inr k ↦ absurd (cc (failed_is_not_ready Diagnostic.id_missing a r db db' (rw k at h), s))
]

pub poll_ready :
    (answer : ProviderAnswer) (a r : MediaAsset) (db db' : Store)
    → poll_and_apply_safe answer a db ≡ ok r db'
    → r.state ≡ ready
    → IsComplete answer a ⊎ (a.state ≡ ready)
unfolding poll_and_apply_safe catch_integrity
poll_ready answer a r db db' h s =
    elim (handled (poll_and_apply answer a db) (mark_failed Diagnostic.update_failed a) db db' r
      h) [
        | inl polled ↦ unsafe_poll_ready answer a r db db' polled s
        | inr marked ↦
            absurd (cc (failed_is_not_ready Diagnostic.update_failed a r db db' marked, s))
      ]
