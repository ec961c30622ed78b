-- ===== src/Playback/OneActive.antt =====
-- `reconcile` of backend/apps/playback/ingest.py and the rows in flight.
use shortform_streaming.Prelude.{ℕ, ◌≡◌, Bool, true, false, Bool-cases, inl, inr, is_some}
use shortform_streaming.Model.{
  MediaAsset, MediaAssetState, Environment, Store, ok, Keeps, pending_upload, uploaded, processing,
  ready, failed, blocked, removed,
}
use shortform_streaming.Playback.Polling.{
  VideoAssetMetadata, ProviderStatus, ProviderAnswer, no_provider, asset_not_found, provider_error,
  metadata, save_and_return, apply_ready, apply_metadata, with_metadata, apply_answer,
  poll_and_apply, poll_and_apply_safe, ready_requirements_met,
}
use shortform_streaming.Playback.Reconciling.{
  retry_failed, reconcile_incomplete, reconcile_state, reconcile_locked, reconcile,
}
use shortform_streaming.Playback.Active.{IsOneActive, active_rules}

save_and_return-IsOneActive : (a : MediaAsset) → Keeps IsOneActive (save_and_return a)
unfolding save_and_return
save_and_return-IsOneActive a = search active_rules depth 20

apply_ready-IsOneActive :
    (m : VideoAssetMetadata) (a : MediaAsset) → Keeps IsOneActive (apply_ready m a)
unfolding apply_ready
apply_ready-IsOneActive m a = elim (Bool-cases (ready_requirements_met m true)) [
  | inl met ↦ rw met (search (active_rules, save_and_return-IsOneActive) depth 30)
  | inr unmet ↦ rw unmet (search active_rules)
]

apply_metadata-IsOneActive :
    (m : VideoAssetMetadata) (a : MediaAsset) (st : ProviderStatus)
    → Keeps IsOneActive (apply_metadata m a st)
unfolding apply_metadata
apply_metadata-IsOneActive m a ProviderStatus.broken = search active_rules
apply_metadata-IsOneActive m a ProviderStatus.encoded = apply_ready-IsOneActive m a
apply_metadata-IsOneActive m a ProviderStatus.encoding = save_and_return-IsOneActive _

apply_answer-IsOneActive :
    (answer : ProviderAnswer) (a : MediaAsset) → Keeps IsOneActive (apply_answer answer a)
unfolding apply_answer
apply_answer-IsOneActive no_provider a = search active_rules
apply_answer-IsOneActive asset_not_found a = search active_rules
apply_answer-IsOneActive provider_error a = search active_rules
apply_answer-IsOneActive (metadata m) a = apply_metadata-IsOneActive m (with_metadata m a) m.status

module _ (answer : ProviderAnswer) (a : MediaAsset) where
  poll-IsOneActive : Keeps IsOneActive (poll_and_apply answer a)
  unfolding poll_and_apply
  poll-IsOneActive = elim (Bool-cases (is_some a.provider_asset_id)) [
    | inl known ↦ rw known (apply_answer-IsOneActive answer a)
    | inr unknown ↦ rw unknown (search active_rules)
  ]

  poll_safe-IsOneActive : Keeps IsOneActive (poll_and_apply_safe answer a)
  unfolding poll_and_apply_safe
  poll_safe-IsOneActive = search (active_rules, poll-IsOneActive)

  incomplete-IsOneActive : Keeps IsOneActive (reconcile_incomplete answer a)
  unfolding reconcile_incomplete
  incomplete-IsOneActive = elim (Bool-cases (is_some a.provider_asset_id)) [
    | inl known ↦ rw known poll_safe-IsOneActive
    | inr unknown ↦ rw unknown (search active_rules)
  ]

retry-IsOneActive :
    (answer : ProviderAnswer) (a : MediaAsset) (other : Bool)
    → Keeps IsOneActive (retry_failed answer a other)
unfolding retry_failed
retry-IsOneActive answer a true = search active_rules
retry-IsOneActive answer a false = search (active_rules, poll_safe-IsOneActive) depth 30

state-IsOneActive :
    (answer : ProviderAnswer) (a : MediaAsset) (st : MediaAssetState)
    → Keeps IsOneActive (reconcile_state answer a st)
unfolding reconcile_state
state-IsOneActive answer a pending_upload = incomplete-IsOneActive answer a
state-IsOneActive answer a uploaded = incomplete-IsOneActive answer a
state-IsOneActive answer a failed = search (active_rules, retry-IsOneActive) depth 20
state-IsOneActive answer a processing = poll_safe-IsOneActive answer a
state-IsOneActive answer a ready = poll_safe-IsOneActive answer a
state-IsOneActive answer a blocked = poll_safe-IsOneActive answer a
state-IsOneActive answer a removed = poll_safe-IsOneActive answer a

locked-IsOneActive :
    (env : Environment) (now : ℕ) (answer : ProviderAnswer) (a : MediaAsset) (settled : Bool)
    → Keeps IsOneActive (reconcile_locked env now answer a settled)
unfolding reconcile_locked
locked-IsOneActive env now answer a true = search active_rules
locked-IsOneActive env now answer a false = search (active_rules, state-IsOneActive) depth 20

pub reconcile-Keeps :
    (env : Environment) (now : ℕ) (answer : ProviderAnswer) (pk : ℕ)
    → Keeps IsOneActive (reconcile env now answer pk)
unfolding reconcile
reconcile-Keeps env now answer pk = search (active_rules, locked-IsOneActive) depth 20

-- Reconciling keeps at most one row of an episode in flight, whatever the provider answers.
pub reconcile-IsOneActive :
    (env : Environment) (now : ℕ) (answer : ProviderAnswer) (pk : ℕ) (r : MediaAsset)
    (db db' : Store)
    → IsOneActive db
    → reconcile env now answer pk db ≡ ok r db'
    → IsOneActive db'
reconcile-IsOneActive env now answer pk r db db' safe h =
    rw h at ((reconcile-Keeps env now answer pk).at db safe)
