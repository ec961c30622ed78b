-- ===== src/Playback/Uploads/Claims.antt =====
-- The rows in flight of one episode across `begin_staff_upload` and `complete_staff_upload` of
-- backend/apps/playback/ingest.py.
use shortform_streaming.Prelude.{ℕ, String, Bool, true, false, Option, none, some}
use shortform_streaming.Model.{
  MediaAsset, MediaAssetState, pending_upload, uploaded, processing, ready, failed, blocked,
  removed, Environment, Keeps,
}
use shortform_streaming.Catalog.Publication.{StringMethods}
use shortform_streaming.Playback.Active.{IsOneActive, active_rules}
use shortform_streaming.Playback.Uploads.{CaptionsFile, Master}
use shortform_streaming.Playback.Uploads.Submitting.{SubmitAnswer}
use shortform_streaming.Playback.Uploads.Staff.{
  MintAnswer, relabel, begin_again, begin_with, begin_staff_upload, fresh_admitted_asset,
  claim_and_submit, complete_locked, complete_staff_upload,
}
use shortform_streaming.Playback.Uploads.OneActive.{
  submit-IsOneActive, create-IsOneActive, admitted-IsOneActive,
}

relabel-IsOneActive :
    (put : Option (String × ℕ)) (language : String) (a : MediaAsset) (same : Bool)
    → Keeps IsOneActive (relabel put language a same)
unfolding relabel
relabel-IsOneActive put language a true = search active_rules
relabel-IsOneActive put language a false = search active_rules depth 20

module _ (put : Option (String × ℕ)) (checksum : ℕ) (language : String) where
  again-IsOneActive : (a : MediaAsset) → Keeps IsOneActive (begin_again put checksum language a)
  unfolding begin_again
  again-IsOneActive a = search (active_rules, relabel-IsOneActive) depth 40

  begin_with-IsOneActive :
      (episode : ℕ) (a : Option MediaAsset)
      → Keeps IsOneActive (begin_with put episode checksum language a)
  unfolding begin_with
  begin_with-IsOneActive episode (some a) = again-IsOneActive a
  begin_with-IsOneActive episode none = search (active_rules, create-IsOneActive) depth 20

pub begin-Keeps :
    (env : Environment) (str : StringMethods) (now : ℕ) (configured : Bool) (mint : MintAnswer)
    (pk : ℕ) (expected : Option ℕ) (captions_language : String)
    → Keeps IsOneActive
        (begin_staff_upload env str now configured mint pk expected captions_language)
unfolding begin_staff_upload
begin-Keeps env str now configured mint pk expected captions_language =
    search (active_rules, admitted-IsOneActive, begin_with-IsOneActive) depth 40

fresh_asset-IsOneActive :
    (env : Environment) (now : ℕ) (c : Bool) (pk : ℕ)
    → Keeps IsOneActive (fresh_admitted_asset env now c pk)
unfolding fresh_admitted_asset
fresh_asset-IsOneActive env now c pk = search active_rules depth 40

module _ (env : Environment) (later : ℕ) (object : Option Master) (answer : SubmitAnswer) (c : Bool)
    (a : MediaAsset) where
  claim-IsOneActive : Keeps IsOneActive (claim_and_submit env later object answer c a)
  unfolding claim_and_submit
  claim-IsOneActive = search (active_rules, submit-IsOneActive) depth 40

  locked-IsOneActive :
      (st : MediaAssetState) → Keeps IsOneActive (complete_locked env later object answer c a st)
  unfolding complete_locked
  locked-IsOneActive pending_upload = claim-IsOneActive
  locked-IsOneActive uploaded = search active_rules
  locked-IsOneActive processing = search active_rules
  locked-IsOneActive ready = search active_rules
  locked-IsOneActive failed = search active_rules
  locked-IsOneActive blocked = search active_rules
  locked-IsOneActive removed = search active_rules

pub complete-Keeps :
    (env : Environment) (now later : ℕ) (configured : Bool) (object : Option Master)
    (answer : SubmitAnswer) (captions : Option CaptionsFile) (pk : ℕ)
    → Keeps IsOneActive (complete_staff_upload env now later configured object answer captions pk)
unfolding complete_staff_upload
complete-Keeps env now later configured object answer captions pk =
    search (active_rules, fresh_asset-IsOneActive, locked-IsOneActive) depth 40
