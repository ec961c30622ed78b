-- ===== src/Progress.antt =====
-- backend/apps/progress/models.py: watch progress.
pub mod Laws
pub mod Continue
use shortform_streaming.Prelude.{
  ℕ, ◌+◌, ◌*◌, Bool, true, false, ◌&&◌, ◌||◌, Option, none, some, List, [], ◌∷◌, map, if◌then◌else◌,
  find, ltb, leb, ◌==◌,
}
use shortform_streaming.Prelude.Int.{ℤ, pos, negsuc}
use shortform_streaming.Model.{Subject, WatchProgress}

abbrev pub same_subject : Subject → Subject → Bool
same_subject (Subject.user a) (Subject.user b) = a == b
same_subject (Subject.device a) (Subject.device b) = a == b
same_subject _ _ = false

-- The columns of a duration and of a stored position are not negative.
unfoldable pub clamp_position_seconds : ℤ → ℕ → ℕ
clamp_position_seconds (negsuc n) duration = 0
clamp_position_seconds (pos n) duration = if ltb duration n then duration else n

-- `position_seconds >= duration_seconds * 0.95`, without the division.
unfoldable pub resolve_completed : ℕ → ℕ → Bool → Bool → Bool
resolve_completed position duration client already =
    if already || client
    then true
    else if leb duration 0
    then false
    else leb (duration * 95) (position * 100)

-- The rows of the natural key: `lookup`.
abbrev pub matches : Subject → ℕ → WatchProgress → Bool
matches subject episode r = same_subject r.subject subject && r.episode == episode

unfoldable pub find_progress : Subject → ℕ → List WatchProgress → Option WatchProgress
find_progress subject episode rows = find (matches subject episode) rows

-- The write to a locked row: the last position, and a completion that is never taken back.
unfoldable pub overwrite : ℕ → ℕ → ℕ → Bool → WatchProgress → WatchProgress
unfolding resolve_completed
overwrite now position duration client r = record r {
  position_seconds = position;
  completed = resolve_completed position duration client r.completed;
  updated_at = now;
}

unfoldable pub overwrite_rows :
    Subject → ℕ → (WatchProgress → WatchProgress) → List WatchProgress → List WatchProgress
overwrite_rows subject episode f rows = map (λ r. if matches subject episode r then f r else r) rows

unfoldable pub new_progress : ℕ → Subject → ℕ → ℕ → ℕ → Bool → WatchProgress
unfolding resolve_completed
new_progress now subject episode position duration client = record {
  subject = subject;
  episode = episode;
  position_seconds = position;
  completed = resolve_completed position duration client false;
  updated_at = now;
}

-- `WatchProgress.objects.create`: the unique constraints refuse a second row of the key, and the
-- IntegrityError leads to the write of the row that is there.
unfoldable pub insert_progress :
    ℕ → Subject → ℕ → ℕ → ℕ → Bool → List WatchProgress → List WatchProgress
unfolding new_progress overwrite overwrite_rows find_progress
insert_progress now subject episode position duration client rows =
    elim (find_progress subject episode rows) [
      | some r ↦ overwrite_rows subject episode (overwrite now position duration client) rows
      | none ↦ new_progress now subject episode position duration client ∷ rows
    ]

-- `seen` is the row that the first lookup locks; it finds none when another transaction commits
-- its row between that lookup and the insert. `rows` is the table at the write.
unfoldable pub upsert_watch_progress :
    ℕ → Subject → ℕ → ℕ → ℤ → Bool → Option WatchProgress → List WatchProgress → List WatchProgress
unfolding insert_progress clamp_position_seconds overwrite overwrite_rows
upsert_watch_progress now subject episode duration position client seen rows = elim seen [
  | some r ↦
      overwrite_rows subject episode
        (overwrite now (clamp_position_seconds position duration) duration client) rows
  | none ↦
      insert_progress now subject episode (clamp_position_seconds position duration) duration client
        rows
]
