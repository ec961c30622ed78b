-- ===== src/Playback/Media.antt =====
-- The operations of backend/apps/playback/ingest.py that write media rows, as steps of the store.
use mathlib.Core.List.{Memᴰ}
use shortform_streaming.Prelude.{
  ℕ, ◌≡◌, String, Bool, true, false, Option, none, some, List, [], ◌∷◌, Option-cases, Bool-cases,
  inl, inr, find, any_witness, arith, ◌==◌,
}
use shortform_streaming.Model.{
  MediaAsset, removed, Diagnostic, Environment, Store, Action, ok, Keeps, After, ◌>>=◌,
}
use shortform_streaming.Catalog.Publication.{StringMethods}
use shortform_streaming.Playback.Assets.{in_flight, is_removed, transition_to, has_other_active}
use shortform_streaming.Playback.Polling.{ProviderAnswer}
use shortform_streaming.Playback.Reconciling.{reconcile}
use shortform_streaming.Playback.Takedown.{
  TakedownAnswer, takedown_failure, take_down, takedown_asset,
}
use shortform_streaming.Playback.Active.{IsOneActive, put_one}
use shortform_streaming.Playback.OneActive.{reconcile-IsOneActive}
use shortform_streaming.Playback.Uploads.{CaptionsFile, Master}
use shortform_streaming.Playback.Uploads.Submitting.{SubmitAnswer}
use shortform_streaming.Playback.Uploads.Ingest.{Answers, ingest_master}
use shortform_streaming.Playback.Uploads.Staff.{
  MintAnswer, begin_staff_upload, complete_staff_upload,
}
use shortform_streaming.Playback.Uploads.OneActive.{ingest-Keeps}
use shortform_streaming.Playback.Uploads.Claims.{begin-Keeps, complete-Keeps}

-- One call that commits.
pub data MediaStep (env : Environment) : Store → Store → Type 0 where
  reconciling :
      {db db' : Store} (now : ℕ) (answer : ProviderAnswer) (pk : ℕ) (r : MediaAsset)
      → reconcile env now answer pk db ≡ ok r db'
      → MediaStep env db db'
  ingesting :
      {db db' : Store} (str : StringMethods) (now later : ℕ) (answers : Answers) (pk : ℕ)
      (video : Master) (captions : Option CaptionsFile) (language : String) (expected : Option ℕ)
      (r : MediaAsset × Bool)
      → ingest_master env str now later answers pk video captions language expected db ≡ ok r db'
      → MediaStep env db db'
  beginning :
      {db db' : Store} (str : StringMethods) (now : ℕ) (configured : Bool) (mint : MintAnswer)
      (pk : ℕ) (expected : Option ℕ) (language : String) (r : MediaAsset × Option (String × ℕ))
      → begin_staff_upload env str now configured mint pk expected language db ≡ ok r db'
      → MediaStep env db db'
  completing :
      {db db' : Store} (now later : ℕ) (configured : Bool) (object : Option Master)
      (answer : SubmitAnswer) (captions : Option CaptionsFile) (pk : ℕ) (r : MediaAsset × Bool)
      → complete_staff_upload env now later configured object answer captions pk db ≡ ok r db'
      → MediaStep env db db'
  taking_down :
      {db db' : Store} (answer : TakedownAnswer) (pk : ℕ) (r : MediaAsset × Bool)
      → takedown_asset answer pk db ≡ ok r db'
      → MediaStep env db db'

-- Any number of calls that commit.
pub data MediaReach (env : Environment) (db : Store) : Store → Type 0 where
  start : MediaReach env db db
  next : {mid db' : Store} → MediaReach env db mid → MediaStep env mid db' → MediaReach env db db'

find_mem :
    (p : MediaAsset → Bool) (xs : List MediaAsset) (x : MediaAsset) → find p xs ≡ some x → Memᴰ x xs
find_mem p [] x h = absurd (cc h)
find_mem p (y ∷ ys) x h = elim (Bool-cases (p y)) [
  | inl here ↦ let same : some y ≡ some x = rw here at h in Memᴰ.head (cc same)
  | inr there ↦ Memᴰ.tail (find_mem p ys x (rw there at h))
]

removed_rests : (a r : MediaAsset) → transition_to removed a ≡ some r → in_flight r.state ≡ false
unfolding transition_to
removed_rests a r h = ground arith

module _ (a : MediaAsset) (db : Store) (safe : IsOneActive db) (m : Memᴰ a db.assets) where
  alone_in_store : in_flight a.state ≡ true → has_other_active a db ≡ false
  unfolding has_other_active
  alone_in_store flying = elim (Bool-cases (has_other_active a db)) [
    | inl taken ↦
        let (x, mx, both) = any_witness _ db.assets taken in
        let same : x.episode_id ≡ a.episode_id = ground (arith, both) in
        let fx : in_flight x.state ≡ true = ground (arith, both) in
        let row : x.pk ≡ a.pk = safe.same_row x a mx m same fx flying in ground (arith, both, row)
    | inr free ↦ free
  ]

  take_down-IsOneActive : (o : Option Diagnostic) → After IsOneActive (take_down a o db)
  unfolding take_down has_other_active ◌>>=◌
  take_down-IsOneActive (some failure) =
      put_one (record a { diagnostic_message = some failure }) db safe alone_in_store
  take_down-IsOneActive none = elim (Bool-cases (is_removed a.state)) [
    | inl gone ↦ rw gone (put_one a db safe alone_in_store)
    | inr other ↦ rw other (elim (Option-cases (transition_to removed a)) [
      | inl illegal ↦ rw illegal tt
      | inr (r, legal) ↦
          rw legal (put_one r db safe (λ flying. absurd (cc (flying, removed_rests a r legal))))
    ])
  ]

takedown-Keeps : (answer : TakedownAnswer) (pk : ℕ) → Keeps IsOneActive (takedown_asset answer pk)
unfolding takedown_asset ◌>>=◌
takedown-Keeps answer pk = record {
  at = λ db h. elim (Option-cases (find (λ x. x.pk == pk) db.assets)) [
    | inl missing ↦ rw missing tt
    | inr (a, found) ↦ rw found (
        take_down-IsOneActive a db h (find_mem _ db.assets a found)
          (takedown_failure a.provider_asset_id answer))
  ];
}

committed :
    {A : Type 0} {m : Action A} {r : A} {db db' : Store}
    → Keeps IsOneActive m
    → IsOneActive db
    → m db ≡ ok r db'
    → IsOneActive db'
committed {db = db} k safe h = rw h at (k.at db safe)

MediaStep-IsOneActive :
    {env : Environment} {db db' : Store} → MediaStep env db db' → IsOneActive db → IsOneActive db'
MediaStep-IsOneActive (reconciling now answer pk r h) safe =
    reconcile-IsOneActive _ now answer pk r _ _ safe h
MediaStep-IsOneActive (ingesting str now later answers pk video captions l e r h) safe =
    committed (ingest-Keeps _ str now later answers pk video captions l e) safe h
MediaStep-IsOneActive (beginning str now configured mint pk e l r h) safe =
    committed (begin-Keeps _ str now configured mint pk e l) safe h
MediaStep-IsOneActive (completing now later configured object answer captions pk r h) safe =
    committed (complete-Keeps _ now later configured object answer captions pk) safe h
MediaStep-IsOneActive (taking_down answer pk r h) safe = committed (takedown-Keeps answer pk) safe h

-- Whatever uploads, polls and takedowns commit, in whatever order, and whatever the provider and the
-- object store answer: at most one row of an episode stays in flight.
pub MediaReach-IsOneActive :
    (env : Environment) (db db' : Store) → MediaReach env db db' → IsOneActive db → IsOneActive db'
MediaReach-IsOneActive env db _ start safe = safe
MediaReach-IsOneActive env db db' (next {mid = mid} history step) safe =
    MediaStep-IsOneActive step (MediaReach-IsOneActive env db mid history safe)
