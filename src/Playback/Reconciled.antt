-- ===== src/Playback/Reconciled.antt =====
-- `reconcile` of backend/apps/playback/ingest.py and the state `ready`.
use shortform_streaming.Prelude.{
  ℕ, ◌≡◌, Bool, true, false, some, none, arith, ◌⊎◌, inl, inr, is_some, find, ◌==◌, Option-cases,
  Bool-cases,
}
use shortform_streaming.Model.{
  MediaAsset, MediaAssetState, pending_upload, uploaded, processing, ready, failed, blocked,
  removed, Diagnostic, Environment, Store, ok, ◌>>=◌, Outcome-cases,
}
use shortform_streaming.Playback.Assets.{transition_to, save_asset}
use shortform_streaming.Playback.Polling.{ProviderAnswer, poll_and_apply_safe}
use shortform_streaming.Playback.Reconciling.{
  asset_is_admitted, retry_failed, reconcile_incomplete, reconcile_state, is_settled,
  reconcile_locked, reconcile,
}
use shortform_streaming.Playback.Polled.{IsComplete, failed_is_not_ready, poll_ready}

incomplete_ready :
    (answer : ProviderAnswer) (a r : MediaAsset) (db db' : Store)
    → reconcile_incomplete answer a db ≡ ok r db'
    → r.state ≡ ready
    → IsComplete answer a ⊎ (a.state ≡ ready)
unfolding reconcile_incomplete
incomplete_ready answer a r db db' h s = elim (Bool-cases (is_some a.provider_asset_id)) [
  | inl k ↦ poll_ready answer a r db db' (rw k at h) s
  | inr k ↦ absurd (cc (failed_is_not_ready Diagnostic.upload_incomplete a r db db' (rw k at h), s))
]

IsComplete-from :
    (answer : ProviderAnswer) (a p : MediaAsset)
    → p.provider_asset_id ≡ a.provider_asset_id
    → IsComplete answer p
    → IsComplete answer a
IsComplete-from answer a p same c = record {
  facts = c.facts;
  answered = c.answered;
  encoded = c.encoded;
  thumbnails = c.thumbnails;
  has_renditions = c.has_renditions;
  captioned = c.captioned;
  known = rw same at c.known;
}

to_processing :
    (a p : MediaAsset)
    → transition_to processing a ≡ some p
    → (p.state ≡ processing) × (p.provider_asset_id ≡ a.provider_asset_id)
unfolding transition_to
to_processing a p h = ground arith

polled_ready :
    (answer : ProviderAnswer) (a p r : MediaAsset) (db db' : Store)
    → (p.state ≡ processing) × (p.provider_asset_id ≡ a.provider_asset_id)
    → poll_and_apply_safe answer p db ≡ ok r db'
    → r.state ≡ ready
    → IsComplete answer a
polled_ready answer a p r db db' (at_processing, same) h s =
    elim (poll_ready answer p r db db' h s) [
      | inl c ↦ IsComplete-from answer a p same c
      | inr was ↦ absurd (cc (was, at_processing))
    ]

retry_ready :
    (answer : ProviderAnswer) (a r : MediaAsset) (other : Bool) (db db' : Store)
    → retry_failed answer a other db ≡ ok r db'
    → r.state ≡ ready
    → IsComplete answer a
unfolding retry_failed ◌>>=◌
retry_ready answer a r true db db' h s = absurd (cc (failed_is_not_ready _ a r db db' h, s))
retry_ready answer a r false db db' h s =
    let noted : MediaAsset = record a { diagnostic_message = none } in
    elim (Option-cases (transition_to processing noted)) [
      | inl missing ↦ absurd (ground arith)
      | inr (p, moved) ↦ elim (Outcome-cases (save_asset p db)) [
        | inr (x, refused) ↦ absurd (ground arith)
        | inl (u, mid, saved) ↦
            polled_ready answer a p r mid db' (to_processing noted p moved) (ground arith) s
      ]
    ]

state_ready :
    (answer : ProviderAnswer) (a r : MediaAsset) (st : MediaAssetState) (db db' : Store)
    → reconcile_state answer a st db ≡ ok r db'
    → r.state ≡ ready
    → IsComplete answer a ⊎ (a.state ≡ ready)
unfolding reconcile_state ◌>>=◌
state_ready answer a r pending_upload db db' h s = incomplete_ready answer a r db db' h s
state_ready answer a r uploaded db db' h s = incomplete_ready answer a r db db' h s
state_ready answer a r failed db db' h s = inl (retry_ready answer a r _ db db' h s)
state_ready answer a r processing db db' h s = poll_ready answer a r db db' h s
state_ready answer a r ready db db' h s = poll_ready answer a r db db' h s
state_ready answer a r blocked db db' h s = poll_ready answer a r db db' h s
state_ready answer a r removed db db' h s = poll_ready answer a r db db' h s

locked_ready :
    (env : Environment) (now : ℕ) (answer : ProviderAnswer) (a r : MediaAsset) (settled : Bool)
    (db db' : Store)
    → reconcile_locked env now answer a settled db ≡ ok r db'
    → r.state ≡ ready
    → ((a.state ≡ ready) ⊎ (IsComplete answer a × (asset_is_admitted env now a db ≡ true)))
unfolding reconcile_locked ◌>>=◌
locked_ready env now answer a r true db db' h s = inl (ground arith)
locked_ready env now answer a r false db db' h s =
    elim (Bool-cases (asset_is_admitted env now a db)) [
      | inr refused ↦ absurd (ground arith)
      | inl admitted ↦ elim (state_ready answer a r a.state db db' (ground arith) s) [
        | inl c ↦ inr (c, admitted)
        | inr was ↦ inl was
      ]
    ]

-- A reconciled asset is ready only if it was ready before, or if its series is admitted and the
-- provider, asked for the stored id, answers that it is encoded, with a thumbnail, a rendition and
-- captions.
pub reconcile_ready :
    (env : Environment) (now : ℕ) (answer : ProviderAnswer) (pk : ℕ) (a r : MediaAsset)
    (db db' : Store)
    → find (λ x. x.pk == pk) db.assets ≡ some a
    → reconcile env now answer pk db ≡ ok r db'
    → r.state ≡ ready
    → (a.state ≡ ready) ⊎ (IsComplete answer a × (asset_is_admitted env now a db ≡ true))
unfolding reconcile ◌>>=◌
reconcile_ready env now answer pk a r db db' found h s =
    locked_ready env now answer a r (is_settled a.state) db db' (ground arith) s
