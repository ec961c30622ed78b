-- ===== src/Progress/Laws.antt =====
-- The rows, the position and the completion of backend/apps/progress/models.py.
use shortform_streaming.Model.{Subject, WatchProgress}
use shortform_streaming.Prelude.{
  ℕ, suc, ◌≤◌, ◌≡◌, ◌∙◌, refl, sym, ap, Bool, true, false, Option, none, some, List, [], ◌∷◌, ◌⊎◌,
  arith, inl, inr, ==_refl, ==_iff, if◌then◌else◌, Bool-cases,
}
use shortform_streaming.Prelude.Int.{ℤ, pos, negsuc}
use shortform_streaming.Progress.{
  same_subject, clamp_position_seconds, resolve_completed, matches, find_progress, overwrite,
  overwrite_rows, new_progress, insert_progress, upsert_watch_progress,
}

pub clamp-bound :
    (position : ℤ) (duration : ℕ) → clamp_position_seconds position duration ≤ duration
unfolding clamp_position_seconds
clamp-bound (negsuc n) duration = omega arith
clamp-bound (pos n) duration = ground arith

same_subject_refl : (s : Subject) → same_subject s s ≡ true
same_subject_refl (Subject.user n) = ==_refl n
same_subject_refl (Subject.device n) = ==_refl n

-- The rows of a key.
abbrev pub count : Subject → ℕ → List WatchProgress → ℕ
count subject episode [] = 0
count subject episode (r ∷ rows) =
    let rest = count subject episode rows in if matches subject episode r then suc rest else rest

abbrev pub was_completed : Option WatchProgress → Bool
was_completed none = false
was_completed (some r) = r.completed

module _ (subject : Subject) (episode : ℕ) (f : WatchProgress → WatchProgress) where
  find-overwrite_rows :
      (rows : List WatchProgress) (r : WatchProgress)
      → ((y : WatchProgress) → matches subject episode (f y) ≡ matches subject episode y)
      → find_progress subject episode rows ≡ some r
      → find_progress subject episode (overwrite_rows subject episode f rows) ≡ some (f r)
  unfolding find_progress overwrite_rows
  find-overwrite_rows [] r keeps h = absurd (cc h)
  find-overwrite_rows (y ∷ ys) r keeps h = ground (arith, keeps y, find-overwrite_rows ys r keeps)

  count-overwrite_rows :
      (s : Subject) (e : ℕ) (rows : List WatchProgress)
      → ((y : WatchProgress) → matches s e (f y) ≡ matches s e y)
      → count s e (overwrite_rows subject episode f rows) ≡ count s e rows
  unfolding overwrite_rows
  count-overwrite_rows s e [] keeps = refl
  count-overwrite_rows s e (y ∷ ys) keeps =
      ground (arith, keeps y, count-overwrite_rows s e ys keeps)

matches-overwrite :
    (s : Subject) (e now position duration : ℕ) (client : Bool) (y : WatchProgress)
    → matches s e (overwrite now position duration client y) ≡ matches s e y
unfolding overwrite
matches-overwrite s e now position duration client y = refl

count-find_none :
    (s : Subject) (e : ℕ) (rows : List WatchProgress)
    → find_progress s e rows ≡ none
    → count s e rows ≡ 0
unfolding find_progress
count-find_none s e [] h = refl
count-find_none s e (r ∷ rows) h = ground (arith, count-find_none s e rows)

eq_of_same : (a b : Subject) → same_subject a b ≡ true → a ≡ b
eq_of_same (Subject.user a) (Subject.user b) h = ap (λ n. Subject.user n) ((==_iff a b).0 h)
eq_of_same (Subject.device a) (Subject.device b) h = ap (λ n. Subject.device n) ((==_iff a b).0 h)
eq_of_same (Subject.user a) (Subject.device b) h = absurd (cc h)
eq_of_same (Subject.device a) (Subject.user b) h = absurd (cc h)

count-new :
    (s t : Subject) (d e : ℕ) (r : WatchProgress) (rows : List WatchProgress)
    → r.subject ≡ t
    → r.episode ≡ d
    → find_progress t d rows ≡ none
    → count s e rows ≤ 1
    → count s e (r ∷ rows) ≤ 1
count-new s t d e r rows hs he h one = elim (Bool-cases (matches s e r)) [
  | inr other ↦ rw other one
  | inl same ↦
      let es : t ≡ s = sym hs ∙ eq_of_same r.subject s (ground arith) in
      let ee : d ≡ e = sym he ∙ (==_iff r.episode e).0 (ground arith) in
      let empty : count s e rows ≡ 0 = count-find_none s e rows (rw (← es, ← ee) h) in
      rw same (omega arith)
]

module _ (now : ℕ) (subject : Subject) (episode duration : ℕ) (position : ℤ) (client : Bool)
    (seen : Option WatchProgress) (rows : List WatchProgress) where
  upsert_known :
      (r : WatchProgress)
      → find_progress subject episode rows ≡ some r
      → upsert_watch_progress now subject episode duration position client seen rows
        ≡ overwrite_rows subject episode
            (overwrite now (clamp_position_seconds position duration) duration client)
            rows
  unfolding upsert_watch_progress insert_progress
  upsert_known r h = ground arith

  upsert_new :
      seen ≡ none
      → find_progress subject episode rows ≡ none
      → upsert_watch_progress now subject episode duration position client seen rows
        ≡ new_progress now subject episode
            (clamp_position_seconds position duration)
            duration
            client
          ∷ rows
  unfolding upsert_watch_progress insert_progress
  upsert_new e h = ground arith

  -- After a write, whether the first lookup saw the row or another transaction inserted it in
  -- between, the row of this viewer and episode has the position that was sent, held between zero
  -- and the duration, and it is completed if it was before, if the client says so, or if the
  -- position reaches 95% of a duration that is not zero.
  pub upsert_result :
      (o : Option WatchProgress)
      → find_progress subject episode rows ≡ o
      → (seen ≡ o) ⊎ (seen ≡ none)
      → (r : WatchProgress) × (find_progress subject episode
            (upsert_watch_progress now subject episode duration position client seen rows)
          ≡ some r)
        × (r.position_seconds ≡ clamp_position_seconds position duration)
        × (r.position_seconds ≤ duration)
        × (r.completed ≡ resolve_completed r.position_seconds duration client (was_completed o))
  upsert_result (some r) h c = (
    overwrite now (clamp_position_seconds position duration) duration client r,
    rw (upsert_known r h) (
        find-overwrite_rows subject episode _ rows r
          (matches-overwrite subject episode now (clamp_position_seconds position duration) duration
            client)
          h),
    unfold overwrite in refl,
    unfold overwrite in clamp-bound position duration,
    unfold overwrite in refl,
  )
  upsert_result none h c = (
    new_progress now subject episode (clamp_position_seconds position duration) duration client,
    rw (upsert_new (unseen c) h) (
        unfold find_progress new_progress in
        ground (arith, ==_refl episode, same_subject_refl subject)),
    unfold new_progress in refl,
    unfold new_progress in clamp-bound position duration,
    unfold new_progress in refl,
  )
    where
      unseen : (seen ≡ none) ⊎ (seen ≡ none) → seen ≡ none
      unseen (inl e) = e
      unseen (inr e) = e

  -- A write leaves at most one row for each viewer and episode where there was at most one.
  pub upsert_unique :
      (o : Option WatchProgress)
      → find_progress subject episode rows ≡ o
      → (seen ≡ o) ⊎ (seen ≡ none)
      → (s : Subject) (e : ℕ) → count s e rows ≤ 1
      → count s e (upsert_watch_progress now subject episode duration position client seen rows) ≤ 1
  upsert_unique (some r) h c s e one = rw (upsert_known r h) (
      rw
        (count-overwrite_rows subject episode
          (overwrite now (clamp_position_seconds position duration) duration client) s e rows
          (matches-overwrite s e now (clamp_position_seconds position duration) duration client))
        one)
  upsert_unique none h (inl unseen) s e one = rw (upsert_new unseen h) (
      count-new s subject episode e
        (new_progress now subject episode (clamp_position_seconds position duration) duration
          client)
        rows (unfold new_progress in refl) (unfold new_progress in refl) h one)
  upsert_unique none h (inr unseen) s e one = rw (upsert_new unseen h) (
      count-new s subject episode e
        (new_progress now subject episode (clamp_position_seconds position duration) duration
          client)
        rows (unfold new_progress in refl) (unfold new_progress in refl) h one)

  -- A completed episode stays completed, whatever position is written later.
  pub completed_stays :
      (r : WatchProgress)
      → find_progress subject episode rows ≡ some r
      → r.completed ≡ true
      → (r' : WatchProgress) × (find_progress subject episode
            (upsert_watch_progress now subject episode duration position client seen rows)
          ≡ some r')
        × (r'.completed ≡ true)
  completed_stays r h done = (
    overwrite now (clamp_position_seconds position duration) duration client r,
    rw (upsert_known r h) (
        find-overwrite_rows subject episode _ rows r
          (matches-overwrite subject episode now (clamp_position_seconds position duration) duration
            client)
          h),
    unfold overwrite resolve_completed in ground arith,
  )
