-- ===== src/Progress/Continue.antt =====
-- backend/apps/progress/continue_watching.py: where a viewer resumes. The artwork's URL is left out.
pub mod Offered
use shortform_streaming.Model.{Subject, WatchProgress}
use shortform_streaming.Prelude.{
  ℕ, String, Bool, true, false, not, ◌&&◌, ◌||◌, Option, none, some, List, [], ◌∷◌, if◌then◌else◌,
  find, select, take, sort_by, ltb, ◌==◌,
}
use shortform_streaming.Model.{Settings, Store, Series, Episode}
use shortform_streaming.Catalog.Episodes.{in_eligible_episodes, lock_episode_for_access}
use shortform_streaming.Progress.{same_subject}

abbrev pub max_continue_items : ℕ
max_continue_items = 8

-- A row of watch progress with its key.
pub record ProgressRow : Type 0 where
  pub pk : ℕ
  pub progress : WatchProgress
  pub open progress use *

-- `ContinueWatchingItem`
pub record ContinueWatchingItem : Type 0 where
  pub series_id : ℕ
  pub series_title : String
  pub episode_id : ℕ
  pub episode_title : String
  pub episode_order : ℕ
  pub position_seconds : ℕ
  pub duration_seconds : ℕ

-- The latest row of a series.
pub record Latest : Type 0 where
  pub series : Series
  pub row : ProgressRow

-- `(row.updated_at, row.pk) > (current.updated_at, current.pk)`
abbrev pub is_later : ProgressRow → ProgressRow → Bool
is_later a b = ltb b.updated_at a.updated_at || (a.updated_at == b.updated_at && ltb b.pk a.pk)

-- `latest_by_series[series_id] = row`, if the row is later.
unfoldable pub put_latest : Series → ProgressRow → List Latest → List Latest
put_latest s row [] = record { series = s; row = row } ∷ []
put_latest s row (x ∷ xs) =
    let rest = put_latest s row xs in
    if x.series.pk == s.pk
    then (if is_later row x.row then record { series = s; row = row } ∷ xs else x ∷ xs)
    else x ∷ rest

-- The loop over the rows of the viewer.
unfoldable pub latest_by_series : Store → List ProgressRow → List Latest → List Latest
unfolding put_latest
latest_by_series db [] found = found
latest_by_series db (row ∷ rows) found = elim (lock_episode_for_access db row.episode) [
  | none ↦ latest_by_series db rows found
  | some e ↦ latest_by_series db rows (put_latest e.series row found)
]

-- `_item`
unfoldable pub watching_item : Series → Episode → ℕ → ContinueWatchingItem
watching_item s e position = record {
  series_id = s.public_id;
  series_title = s.title;
  episode_id = e.public_id;
  episode_title = e.title;
  episode_order = e.order;
  position_seconds = position;
  duration_seconds = e.duration_seconds;
}

-- `order_by("season__number", "order")`; `season` is the number of an episode's season.
abbrev pub is_earlier : (Episode → ℕ) → Episode → Episode → Bool
is_earlier season a b = ltb (season a) (season b) || (season a == season b && ltb a.order b.order)

-- `eligible_episodes_for_series`, in its order
unfoldable pub ordered_episodes : Settings → (Episode → ℕ) → Store → ℕ → Series → List Episode
unfolding sort_by
ordered_episodes settings season db now s =
    sort_by (is_earlier season) (select (in_eligible_episodes settings db now s) db.episodes)

-- The episode of a key, and those behind it.
unfoldable pub episode_and_next : ℕ → List Episode → Option (Episode × List Episode)
episode_and_next pk [] = none
episode_and_next pk (e ∷ es) = if e.pk == pk then some (e, es) else episode_and_next pk es

abbrev pub unfinished : Option ProgressRow → Option ℕ
unfinished none = some 0
unfinished (some row) = if row.completed then none else some row.position_seconds

-- The first episode that the viewer has not finished.
unfoldable pub next_item : Series → List ProgressRow → List Episode → Option ContinueWatchingItem
unfolding watching_item
next_item s rows [] = none
next_item s rows (e ∷ es) =
    let later = next_item s rows es in
    elim (unfinished (find (λ r. r.episode == e.pk) rows)) [
      | none ↦ later
      | some position ↦ some (watching_item s e position)
    ]

-- `_resume_item`, among the episodes `episodes`
unfoldable pub resume_among :
    Series → ProgressRow → List ProgressRow → List Episode → Option ContinueWatchingItem
unfolding episode_and_next next_item
resume_among s latest rows episodes = elim (episode_and_next latest.episode episodes) [
  | none ↦ next_item s rows episodes
  | some x ↦
      if latest.completed
      then next_item s rows x.1
      else some (watching_item s x.0 latest.position_seconds)
]

unfoldable pub resume_item :
    Settings → (Episode → ℕ) → Store → ℕ → List ProgressRow → Latest → Option ContinueWatchingItem
unfolding resume_among ordered_episodes
resume_item settings season db now rows l =
    resume_among l.series l.row rows (ordered_episodes settings season db now l.series)

abbrev pub with_item :
    Option ContinueWatchingItem → List ContinueWatchingItem → List ContinueWatchingItem
with_item none items = items
with_item (some i) items = i ∷ items

unfoldable pub resume_items :
    Settings
    → (Episode → ℕ)
    → Store
    → ℕ
    → List ProgressRow
    → List Latest
    → List ContinueWatchingItem
unfolding resume_item
resume_items settings season db now rows [] = []
resume_items settings season db now rows (l ∷ ls) =
    with_item (resume_item settings season db now rows l)
      (resume_items settings season db now rows ls)

-- `_subject_progress`
unfoldable pub subject_progress : Subject → List ProgressRow → List ProgressRow
subject_progress subject rows = select (λ r. same_subject r.subject subject) rows

-- The loop stops at the eighth item, which are the first eight.
unfoldable pub list_continue_watching :
    Settings → (Episode → ℕ) → Store → ℕ → Subject → List ProgressRow → List ContinueWatchingItem
unfolding subject_progress latest_by_series resume_items
list_continue_watching settings season db now subject rows =
    let mine = subject_progress subject rows in
    take max_continue_items (
      resume_items settings season db now mine
        (sort_by (λ a b. is_later a.row b.row) (latest_by_series db mine [])))
