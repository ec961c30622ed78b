-- ===== src/Progress/Continue/Offered.antt =====
-- What backend/apps/progress/continue_watching.py offers.
use shortform_streaming.Model.{Subject}
use mathlib.Core.List.{Memᴰ}
use shortform_streaming.Prelude.{
  ℕ, zero, suc, ◌≤◌, All, ◌≡◌, refl, subst, Bool, true, Option, none, some, List, [], ◌∷◌, inl, inr,
  arith, find, select, take, length, length-take, insert_by, sort_by, ◌==◌, Bool-cases,
  Option-cases,
}
use shortform_streaming.Model.{Settings, Store, Series, Episode}
use shortform_streaming.Catalog.Episodes.{in_eligible_episodes}
use shortform_streaming.Progress.Continue.{
  ProgressRow, ContinueWatchingItem, Latest, is_earlier, watching_item, ordered_episodes,
  episode_and_next, unfinished, next_item, resume_among, resume_item, with_item, resume_items,
  list_continue_watching, subject_progress,
}

module _ {ℓ κ} {A : Type ℓ} (P : A → Type κ) where
  All-select :
      (p : A → Bool) (xs : List A) → ((x : A) → Memᴰ x xs → p x ≡ true → P x) → All P (select p xs)
  All-select p [] k = tt
  All-select p (x ∷ xs) k =
      let rest = All-select p xs (λ y m. k y (Memᴰ.tail m)) in
      elim (Bool-cases (p x)) [
        | inl held ↦ rw held (k x (Memᴰ.head refl) held, rest)
        | inr out ↦ rw out rest
      ]

  All-take : (n : ℕ) (xs : List A) → All P xs → All P (take n xs)
  All-take zero xs h = tt
  All-take (suc n) [] h = tt
  All-take (suc n) (x ∷ xs) h = (h.0, All-take n xs h.1)

  module _ (before : A → A → Bool) where
    All-insert_by : (x : A) (xs : List A) → P x → All P xs → All P (insert_by before x xs)
    unfolding insert_by
    All-insert_by x [] k h = (k, tt)
    All-insert_by x (y ∷ ys) k h = elim (Bool-cases (before y x)) [
      | inl first ↦ rw first (h.0, All-insert_by x ys k h.1)
      | inr later ↦ rw later (k, h)
    ]

    All-sort_by : (xs : List A) → All P xs → All P (sort_by before xs)
    unfolding sort_by
    All-sort_by [] h = tt
    All-sort_by (x ∷ xs) h = All-insert_by x (sort_by before xs) h.0 (All-sort_by xs h.1)

module _ (settings : Settings) (db : Store) (now : ℕ) where
  -- The item names a stored episode that is eligible in its series.
  pub record IsOffered (i : ContinueWatchingItem) : Type 0 where
    pub series : Series
    pub episode : Episode
    pub position : ℕ
    pub stored : Memᴰ episode db.episodes
    pub eligible : in_eligible_episodes settings db now series episode ≡ true
    pub named : i ≡ watching_item series episode position

  abbrev IsFit : Series → Episode → Type 0
  IsFit s e = Memᴰ e db.episodes × (in_eligible_episodes settings db now s e ≡ true)

  abbrev IsOfferedOption : Option ContinueWatchingItem → Type 0
  IsOfferedOption none = Unit
  IsOfferedOption (some i) = IsOffered i

module _ (settings : Settings) (season : Episode → ℕ) (db : Store) (now : ℕ)
    (rows : List ProgressRow) where
  ordered_episodes-IsFit :
      (s : Series) → All (IsFit settings db now s) (ordered_episodes settings season db now s)
  unfolding ordered_episodes
  ordered_episodes-IsFit s = All-sort_by (IsFit settings db now s) (is_earlier season) _ (
      All-select (IsFit settings db now s) (in_eligible_episodes settings db now s) db.episodes
        (λ e m h. (m, h)))

  next_item-IsOffered :
      (s : Series) (es : List Episode)
      → All (IsFit settings db now s) es
      → IsOfferedOption settings db now (next_item s rows es)
  unfolding next_item
  next_item-IsOffered s [] h = tt
  next_item-IsOffered s (e ∷ es) h =
      elim (Option-cases (unfinished (find (λ r. r.episode == e.pk) rows))) [
        | inl finished ↦ rw (finished, IsOfferedOption) (next_item-IsOffered s es h.1)
        | inr (position, open_row) ↦
            rw (open_row, IsOfferedOption)
              (record {
                series = s;
                episode = e;
                position = position;
                stored = h.0.0;
                eligible = h.0.1;
                named = refl;
              })
      ]

  episode_and_next-IsFit :
      (s : Series) (pk : ℕ) (es : List Episode) (x : Episode × List Episode)
      → All (IsFit settings db now s) es
      → episode_and_next pk es ≡ some x
      → IsFit settings db now s x.0 × All (IsFit settings db now s) x.1
  unfolding episode_and_next
  episode_and_next-IsFit s pk [] x h found = absurd (cc found)
  episode_and_next-IsFit s pk (e ∷ es) x h found = elim (Bool-cases (e.pk == pk)) [
    | inr other ↦ episode_and_next-IsFit s pk es x h.1 (rw other at found)
    | inl here ↦
        let same : (e, es) ≡ x = ground (arith, rw here at found) in
        subst (λ y. IsFit settings db now s y.0 × All (IsFit settings db now s) y.1) same h
  ]

  resume_among-IsOffered :
      (s : Series) (latest : ProgressRow) (es : List Episode)
      → All (IsFit settings db now s) es
      → IsOfferedOption settings db now (resume_among s latest rows es)
  unfolding resume_among
  resume_among-IsOffered s latest es h = elim (Option-cases (episode_and_next latest.episode es)) [
    | inl gone ↦ rw (gone, IsOfferedOption) (next_item-IsOffered s es h)
    | inr (x, found) ↦
        let (fit, rest) = episode_and_next-IsFit s latest.episode es x h found in
        elim (Bool-cases latest.completed) [
          | inl finished ↦ rw (found, finished, IsOfferedOption) (next_item-IsOffered s x.1 rest)
          | inr started ↦
              rw (found, started, IsOfferedOption)
                (record {
                  series = s;
                  episode = x.0;
                  position = latest.position_seconds;
                  stored = fit.0;
                  eligible = fit.1;
                  named = refl;
                })
        ]
  ]

  with_item-IsOffered :
      (o : Option ContinueWatchingItem) (items : List ContinueWatchingItem)
      → IsOfferedOption settings db now o
      → All (IsOffered settings db now) items
      → All (IsOffered settings db now) (with_item o items)
  with_item-IsOffered none items k h = h
  with_item-IsOffered (some i) items k h = (k, h)

  resume_items-IsOffered :
      (ls : List Latest)
      → All (IsOffered settings db now) (resume_items settings season db now rows ls)
  unfolding resume_items resume_item
  resume_items-IsOffered [] = tt
  resume_items-IsOffered (l ∷ ls) =
      with_item-IsOffered (resume_item settings season db now rows l) _
        (resume_among-IsOffered l.series l.row (ordered_episodes settings season db now l.series)
          (ordered_episodes-IsFit l.series))
        (resume_items-IsOffered ls)

-- A viewer is offered at most eight items, and each is a stored episode that is eligible in its
-- series now.
pub list_continue_watching-IsOffered :
    (settings : Settings) (season : Episode → ℕ) (db : Store) (now : ℕ) (subject : Subject)
    (rows : List ProgressRow)
    → (length (list_continue_watching settings season db now subject rows) ≤ 8)
      × All (IsOffered settings db now) (list_continue_watching settings season db now subject rows)
unfolding list_continue_watching
list_continue_watching-IsOffered settings season db now subject rows = (
  length-take 8 _,
  All-take (IsOffered settings db now) 8 _
      (resume_items-IsOffered settings season db now (subject_progress subject rows) _),
)
