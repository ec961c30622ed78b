-- ===== src/Playback/Uploads/OneActive.antt =====
-- The rows in flight of one episode across `ingest_master` of backend/apps/playback/ingest.py.
use mathlib.Core.List.{Memᴰ}
use shortform_streaming.Prelude.{
  ℕ, ◌≡◌, String, Bool, true, false, Option, none, some, Bool-cases, inl, inr, sym, ap, ◌∙◌, ◌==◌,
  ◌∷◌, arith,
}
use shortform_streaming.Model.{MediaAsset, Diagnostic, Environment, Store, Keeps, fresh, ◌>>=◌}
use shortform_streaming.Playback.Assets.{in_flight, has_other_active}
use shortform_streaming.Playback.Active.{IsOneActive, beside, active_rules}
use shortform_streaming.Catalog.Publication.{StringMethods}
use shortform_streaming.Playback.OneActive.{reconcile-Keeps}
use shortform_streaming.Playback.Uploads.Ingest.{
  Answers, existing_upload, reuse_failed, fresh_upload, upload_or_reuse, upload_or_existing,
  ingest_master,
}
use shortform_streaming.Playback.Uploads.{
  CaptionsFile, Master, fresh_admitted_episode, insert_asset, create_asset,
}
use shortform_streaming.Playback.Uploads.Submitting.{
  is_processing, save_quietly, fail_quietly, SubmitAnswer, unset_provider, refused_master,
  accepted_master, apply_submit, submit_if, submit_to_provider,
}

save_quietly-IsOneActive : (a : MediaAsset) → Keeps IsOneActive (save_quietly a)
unfolding save_quietly
save_quietly-IsOneActive a = search active_rules depth 20

fail_quietly-IsOneActive : (d : Diagnostic) (a : MediaAsset) → Keeps IsOneActive (fail_quietly d a)
unfolding fail_quietly
fail_quietly-IsOneActive d a = search active_rules depth 20

apply_submit-IsOneActive :
    (answer : SubmitAnswer) (c : Bool) (a : MediaAsset)
    → Keeps IsOneActive (apply_submit answer c a)
unfolding apply_submit
apply_submit-IsOneActive unset_provider c a = fail_quietly-IsOneActive _ a
apply_submit-IsOneActive refused_master c a = fail_quietly-IsOneActive _ a
apply_submit-IsOneActive (accepted_master id) c a =
    search (active_rules, save_quietly-IsOneActive) depth 20

submit_if-IsOneActive :
    (answer : SubmitAnswer) (c : Bool) (a : MediaAsset) (admitted : Bool)
    → Keeps IsOneActive (submit_if answer c a admitted)
unfolding submit_if
submit_if-IsOneActive answer c a true = apply_submit-IsOneActive answer c a
submit_if-IsOneActive answer c a false = search active_rules

pub submit-IsOneActive :
    (env : Environment) (later : ℕ) (answer : SubmitAnswer) (c : Bool) (a : MediaAsset)
    → Keeps IsOneActive (submit_to_provider env later answer c a)
unfolding submit_to_provider
submit-IsOneActive env later answer c a = search (active_rules, submit_if-IsOneActive) depth 30

fresh-IsOneActive : Keeps IsOneActive fresh
unfolding fresh ◌>>=◌
fresh-IsOneActive = record { at = λ db h. record { same_row = h.same_row } }

module _ (a : MediaAsset) (db : Store) (safe : IsOneActive db)
    (alone : has_other_active a db ≡ false) where
  same_as_new :
      (y : MediaAsset)
      → Memᴰ y db.assets
      → y.episode_id ≡ a.episode_id
      → in_flight y.state ≡ true
      → y.pk ≡ a.pk
  same_as_new y m same flying = elim (Bool-cases (y.pk == a.pk)) [
    | inl p ↦ ground (arith, p)
    | inr p ↦ absurd (cc (beside a db safe y m p same flying, alone))
  ]

  insert_one : IsOneActive (record db { assets = a ∷ db.assets })
  insert_one = record { same_row = pairs }
    where
      pairs :
          (x y : MediaAsset)
          → Memᴰ x (a ∷ db.assets)
          → Memᴰ y (a ∷ db.assets)
          → x.episode_id ≡ y.episode_id
          → in_flight x.state ≡ true
          → in_flight y.state ≡ true
          → x.pk ≡ y.pk
      pairs x y (Memᴰ.head ex) (Memᴰ.head ey) same fx fy = ap (λ z. z.pk) (ex ∙ sym ey)
      pairs x y (Memᴰ.head ex) (Memᴰ.tail my) same fx fy =
          ap (λ z. z.pk) ex ∙ sym (same_as_new y my (sym same ∙ ap (λ z. z.episode_id) ex) fy)
      pairs x y (Memᴰ.tail mx) (Memᴰ.head ey) same fx fy =
          same_as_new x mx (same ∙ ap (λ z. z.episode_id) ey) fx ∙ sym (ap (λ z. z.pk) ey)
      pairs x y (Memᴰ.tail mx) (Memᴰ.tail my) same fx fy = safe.same_row x y mx my same fx fy

insert-IsOneActive : (a : MediaAsset) → Keeps IsOneActive (insert_asset a)
unfolding insert_asset has_other_active ◌>>=◌
insert-IsOneActive a = record {
  at = λ db h. elim (Bool-cases (has_other_active a db)) [
    | inl refused ↦ rw refused tt
    | inr free ↦ rw free (insert_one a db h free)
  ];
}

pub create-IsOneActive :
    (episode checksum : ℕ) (language : String) (c : Bool)
    → Keeps IsOneActive (create_asset episode checksum language c)
unfolding create_asset
create-IsOneActive episode checksum language c =
    search (active_rules, insert-IsOneActive, fresh-IsOneActive) depth 20

existing-IsOneActive :
    (env : Environment) (later : ℕ) (answers : Answers) (checksum : ℕ) (a : MediaAsset)
    → Keeps IsOneActive (existing_upload env later answers checksum a)
unfolding existing_upload
existing-IsOneActive env later answers checksum a = elim (Bool-cases (a.checksum == checksum)) [
  | inl same ↦ rw same (elim (Bool-cases (is_processing a.state)) [
    | inl p ↦ rw p (search (active_rules, reconcile-Keeps) depth 20)
    | inr p ↦ rw p (search active_rules)
  ])
  | inr other ↦ rw other (search active_rules)
]

reuse-IsOneActive :
    (env : Environment) (later : ℕ) (answers : Answers) (language : String) (c : Bool)
    (a : MediaAsset)
    → Keeps IsOneActive (reuse_failed env later answers language c a)
unfolding reuse_failed
reuse-IsOneActive env later answers language c a =
    search (active_rules, submit-IsOneActive) depth 30

fresh_upload-IsOneActive :
    (env : Environment) (later : ℕ) (answers : Answers) (episode checksum : ℕ) (language : String)
    (c : Bool)
    → Keeps IsOneActive (fresh_upload env later answers episode checksum language c)
unfolding fresh_upload
fresh_upload-IsOneActive env later answers episode checksum language c =
    search (active_rules, create-IsOneActive, submit-IsOneActive) depth 30

module _ (env : Environment) (later : ℕ) (answers : Answers) (episode checksum : ℕ)
    (language : String) (c : Bool) where
  upload_or_reuse-IsOneActive :
      (f : Option MediaAsset)
      → Keeps IsOneActive (upload_or_reuse env later answers episode checksum language c f)
  unfolding upload_or_reuse
  upload_or_reuse-IsOneActive (some f) = reuse-IsOneActive env later answers language c f
  upload_or_reuse-IsOneActive none =
      fresh_upload-IsOneActive env later answers episode checksum language c

  upload_or_existing-IsOneActive :
      (a : Option MediaAsset)
      → Keeps IsOneActive (upload_or_existing env later answers episode checksum language c a)
  unfolding upload_or_existing
  upload_or_existing-IsOneActive (some a) = existing-IsOneActive env later answers checksum a
  upload_or_existing-IsOneActive none = search (active_rules, upload_or_reuse-IsOneActive) depth 20

pub admitted-IsOneActive :
    (env : Environment) (now : ℕ) (captions : Option String) (pk : ℕ)
    → Keeps IsOneActive (fresh_admitted_episode env now captions pk)
unfolding fresh_admitted_episode
admitted-IsOneActive env now captions pk = search active_rules depth 30

-- An upload of a master keeps at most one row of an episode in flight.
pub ingest-Keeps :
    (env : Environment) (str : StringMethods) (now later : ℕ) (answers : Answers) (pk : ℕ)
    (video : Master) (captions : Option CaptionsFile) (captions_language : String)
    (expected : Option ℕ)
    → Keeps IsOneActive
        (ingest_master env str now later answers pk video captions captions_language expected)
unfolding ingest_master
ingest-Keeps env str now later answers pk video captions captions_language expected =
    search (active_rules, admitted-IsOneActive, upload_or_existing-IsOneActive) depth 40
