-- ===== src/Accounts/SigningIn.antt =====
-- `get_or_create_profile` of backend/apps/accounts/profiles.py, and what follows it.
use shortform_streaming.Prelude.{
  ◌≡◌, false, some, arith, find, ◌==◌, ==_refl, ==_iff, find_holds, Option-cases, inl, inr,
}
use shortform_streaming.Model.{UserProfile, Environment, Store, ok, ◌>>=◌}
use shortform_streaming.Accounts.{RawUid, is_deleted, current_profile, get_or_create_profile}

module _ (env : Environment) (raw : RawUid) (db db' : Store) (p : UserProfile)
    (signed : get_or_create_profile env raw db ≡ ok p db') where
  -- The profile that a sign-in returns is current in the store that it leaves, and is that of the
  -- identity, which has no deletion. A stored profile of the identity has its own key.
  pub get_or_create_profile-current_profile :
      ((q : UserProfile)
        → find (λ x. x.firebase_uid == raw.uid) db.profiles ≡ some q
        → find (λ x. x.pk == q.pk) db.profiles ≡ some q)
      → (current_profile env p db' ≡ some p)
        × (p.firebase_uid ≡ raw.uid)
        × (is_deleted env raw.uid db ≡ false)
  unfolding get_or_create_profile current_profile is_deleted ◌>>=◌
  get_or_create_profile-current_profile keyed =
      elim (Option-cases (find (λ x. x.firebase_uid == raw.uid) db.profiles)) [
        | inl new ↦ ground (arith, new, ==_refl db.next_id, ==_refl raw.uid)
        | inr (q, known) ↦
            let held =
              (==_iff q.firebase_uid raw.uid).0
                (find_holds (λ x. x.firebase_uid == raw.uid) db.profiles q known) in
            ground (arith, known, keyed q known, held, ==_refl raw.uid)
      ]
