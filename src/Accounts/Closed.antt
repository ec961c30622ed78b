-- ===== src/Accounts/Closed.antt =====
-- The effect of `request_account_deletion` of backend/apps/accounts/lifecycle.py.
use shortform_streaming.Prelude.{
  ℕ, ◌≡◌, ◌∙◌, refl, Bool, true, Option, none, some, arith, any, find, ==_refl, inl, inr, any-find,
}
use shortform_streaming.Model.{
  UserProfile, AccountDeletion, Environment, Store, Outcome-cases, ok, ◌>>=◌,
}
use shortform_streaming.Accounts.{
  VerifiedToken, is_deleted, current_profile, delete_profile, delete_profiles_of, find_deletion,
  deletion_record, request_account_deletion,
}

any-first :
    (f : AccountDeletion → Bool) (db : Store) (d : AccountDeletion)
    → find f db.deletions ≡ some d
    → any f db.deletions ≡ true
any-first f db d h = any-find f db.deletions d h

deletion_recorded :
    (env : Environment) (uid : ℕ) (o : Option AccountDeletion) (db db' : Store)
    (d : AccountDeletion)
    → find_deletion env uid db ≡ o
    → deletion_record env uid o db ≡ ok d db'
    → (is_deleted env uid db' ≡ true) × (db'.entries ≡ db.entries) × (db'.unlocks ≡ db.unlocks)
unfolding find_deletion deletion_record is_deleted ◌>>=◌
deletion_recorded env uid (some x) db db' d known h = ground (arith, any-first _ db x known)
deletion_recorded env uid none db db' d known h =
    ground (arith, ==_refl (env.deletion_fingerprint uid))

profiles_deleted :
    (env : Environment) (uid : ℕ) (db : Store)
    → (is_deleted env uid (delete_profiles_of uid db) ≡ is_deleted env uid db)
      × ((delete_profiles_of uid db).entries ≡ db.entries)
      × ((delete_profiles_of uid db).unlocks ≡ db.unlocks)
unfolding delete_profiles_of delete_profile is_deleted
profiles_deleted env uid db = ground arith

deleted-current :
    (env : Environment) (profile : UserProfile) (db : Store)
    → is_deleted env profile.firebase_uid db ≡ true
    → current_profile env profile db ≡ none
unfolding current_profile
deleted-current env profile db h = ground arith

-- Once a deletion request of an account is committed, no profile object of its identity passes as
-- current, so that every service that locks the profile refuses it, while the coin entries and the
-- unlock receipts are what they were.
pub deletion_closes :
    (env : Environment) (now : ℕ) (token : VerifiedToken) (db db' : Store) (d : AccountDeletion)
    (profile : UserProfile)
    → request_account_deletion env now token db ≡ ok d db'
    → profile.firebase_uid ≡ token.uid
    → (current_profile env profile db' ≡ none)
      × (db'.entries ≡ db.entries)
      × (db'.unlocks ≡ db.unlocks)
unfolding request_account_deletion ◌>>=◌
deletion_closes env now token db db' d profile h same =
    elim (Outcome-cases (deletion_record env token.uid (find_deletion env token.uid db) db)) [
      | inr (x, refused) ↦ absurd (ground arith)
      | inl (x, mid, recorded) ↦
          let (deleted, entries, unlocks) =
            deletion_recorded env token.uid _ db mid x refl recorded in
          let (kept, entries', unlocks') = profiles_deleted env token.uid mid in
          let closed : db' ≡ delete_profiles_of token.uid mid = ground arith in
          rw closed (
            deleted-current env profile _ (rw same (kept ∙ deleted)),
            entries' ∙ entries,
            unlocks' ∙ unlocks,
          )
    ]
