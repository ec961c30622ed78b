-- ===== src/Accounts.antt =====
-- backend/apps/accounts/profiles.py and lifecycle.py. The advisory locks are not state: a service
-- runs as one transaction. Instants are in microseconds.
pub mod Closed
pub mod SigningIn
use shortform_streaming.Prelude.{
  ℕ, suc, ◌+◌, ◌*◌, Bool, true, false, not, ◌&&◌, ◌||◌, Option, none, some, ◌∷◌, map, if◌then◌else◌,
  any, find, select, leb, ltb, ◌==◌, is_just, List,
}
use shortform_streaming.Model.{
  UserProfile, AccountDeletion, Subject, Wallet, Environment, Store, Error, Action, Outcome, ok,
  err, gets, modify, or_raise, raise_if, fresh, pure, ◌>>=◌, ◌>>◌,
}

unfoldable pub is_deleted : Environment → ℕ → Store → Bool
is_deleted env uid db = any (λ d. d.uid_fingerprint == env.deletion_fingerprint uid) db.deletions

-- The profile that an authenticated request names, if it may still act.
unfoldable pub current_profile : Environment → UserProfile → Store → Option UserProfile
unfolding is_deleted
current_profile env profile db = elim (find (λ p. p.pk == profile.pk) db.profiles) [
  | none ↦ none
  | some row ↦
      if not (row.firebase_uid == profile.firebase_uid) || is_deleted env profile.firebase_uid db
      then none
      else some row
]

unfoldable pub lock_current_profile : Environment → UserProfile → Action UserProfile
unfolding current_profile
lock_current_profile env profile = do
  or_raise (← gets (current_profile env profile)) Error.authentication_failed

-- The dataclass `VerifiedToken`; `auth_time` is in seconds.
pub record VerifiedToken : Type 0 where
  pub uid : ℕ
  pub auth_time : Option ℕ

-- `0 <= now - auth_time <= 300`
unfoldable pub is_recent : Option ℕ → ℕ → Bool
is_recent none now = false
is_recent (some t) now = leb (t * 1000000) now && leb now (t * 1000000 + 300000000)

detach : ℕ → Wallet → Wallet
detach pk w = if is_just pk w.user_profile then record w { user_profile = none } else w

abbrev pub is_of_user : ℕ → Subject → Bool
is_of_user pk (Subject.user u) = u == pk
is_of_user pk (Subject.device d) = false

-- `UserProfile.delete()` of one row: CASCADE removes progress, entitlements and reward intents, SET_NULL
-- detaches the wallet.
unfoldable pub delete_profile : UserProfile → Store → Store
unfolding detach
delete_profile p db = record db {
  profiles = select (λ q. not (q.pk == p.pk)) db.profiles;
  entitlements = select (λ x. not (x.user_profile == p.pk)) db.entitlements;
  intents = select (λ i. not (i.user_profile == p.pk)) db.intents;
  progress = select (λ w. not (is_of_user p.pk w.subject)) db.progress;
  wallets = map (detach p.pk) db.wallets;
}

-- `UserProfile.objects.filter(firebase_uid=uid).delete()`; the uid is unique.
unfoldable pub delete_profiles_of : ℕ → Store → Store
unfolding delete_profile
delete_profiles_of uid db = elim (find (λ p. p.firebase_uid == uid) db.profiles) [
  | none ↦ db
  | some p ↦ delete_profile p db
]

new_deletion : Environment → ℕ → ℕ → AccountDeletion
new_deletion env uid public_id = record {
  public_id = public_id;
  uid_fingerprint = env.deletion_fingerprint uid;
  firebase_uid = some uid;
  completed = false;
  completed_at = none;
  attempts = 0;
  last_attempt_at = none;
}

-- `get_or_create` of the receipt of a fingerprint.
unfoldable pub deletion_record : Environment → ℕ → Option AccountDeletion → Action AccountDeletion
unfolding new_deletion
deletion_record env uid (some d) = pure d
deletion_record env uid none = do
  public_id ← fresh
  modify (λ db. record db { deletions = new_deletion env uid public_id ∷ db.deletions })
  pure (new_deletion env uid public_id)

unfoldable pub find_deletion : Environment → ℕ → Store → Option AccountDeletion
find_deletion env uid db =
    find (λ d. d.uid_fingerprint == env.deletion_fingerprint uid) db.deletions

unfoldable pub request_account_deletion : Environment → ℕ → VerifiedToken → Action AccountDeletion
unfolding is_recent deletion_record delete_profiles_of
request_account_deletion env now verified = do
  raise_if (not (is_recent verified.auth_time now)) Error.reauthentication_required
  known ← gets (find_deletion env verified.uid)
  d ← deletion_record env verified.uid known
  modify (delete_profiles_of verified.uid)
  pure d

update_deletion : AccountDeletion → List AccountDeletion → List AccountDeletion
update_deletion d = map (λ x. if x.public_id == d.public_id then d else x)

-- One attempt: `provider_ok` says whether `delete_firebase_user` returned.
unfoldable pub attempt_deletion : Bool → ℕ → AccountDeletion → AccountDeletion
attempt_deletion provider_ok now d =
    if d.completed
    then d
    else if provider_ok
    then record d {
      completed = true;
      completed_at = some now;
      firebase_uid = none;
      attempts = suc d.attempts;
      last_attempt_at = some now;
    }
    else record d { attempts = suc d.attempts; last_attempt_at = some now }

unfoldable pub process_account_deletion : Bool → ℕ → ℕ → Action AccountDeletion
unfolding attempt_deletion update_deletion
process_account_deletion provider_ok now public_id = do
  d ← or_raise (← gets (λ db. find (λ d. d.public_id == public_id) db.deletions)) Error.not_found
  let d' = attempt_deletion provider_ok now d
  modify (λ db. record db { deletions = update_deletion d' db.deletions })
  pure d'

abbrev max_uid_length : ℕ
max_uid_length = 128

abbrev new_profile : ℕ → ℕ → UserProfile
new_profile pk uid = record { pk = pk; firebase_uid = uid; ads_consent = false }

unfoldable pub or_new_profile : ℕ → Option UserProfile → Action UserProfile
or_new_profile uid (some p) = pure p
or_new_profile uid none = do
  pk ← fresh
  modify (λ db. record db { profiles = new_profile pk uid ∷ db.profiles })
  pure (new_profile pk uid)

-- A Firebase UID as it arrives: its number of characters without the whitespace around it, and the
-- number that stands for that text.
pub record RawUid : Type 0 where
  pub stripped_length : ℕ
  pub uid : ℕ

-- `get_or_create_profile`; a `validation_error` is its ValueError.
unfoldable pub get_or_create_profile : Environment → RawUid → Action UserProfile
unfolding or_new_profile is_deleted
get_or_create_profile env raw = do
  raise_if (raw.stripped_length == 0 || ltb max_uid_length raw.stripped_length)
      Error.validation_error
  deleted ← gets (is_deleted env raw.uid)
  raise_if deleted Error.token_revoked
  known ← gets (λ db. find (λ p. p.firebase_uid == raw.uid) db.profiles)
  or_new_profile raw.uid known
