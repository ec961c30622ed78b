-- ===== src/Catalog/Agreement.antt =====
-- The SQL queries of backend/apps/catalog/eligibility.py against its Python checks.
use shortform_streaming.Prelude.{
  ℕ, false, true, ◌&&◌, ◌≡◌, some, none, arith, Bool, String, has_text, matches_nonspace,
  Bool-cases, inl, inr,
}
use shortform_streaming.Model.{Settings, Store, Series, Episode}
use shortform_streaming.Catalog.Context.{LaunchContext, resolve_launch_context}
use shortform_streaming.Catalog.Rights.{started, not_ended, series_is_admitted}
use shortform_streaming.Catalog.Eligibility.{
  is_published, has_metadata, in_eligible_series_queryset,
}
use shortform_streaming.Catalog.Episodes.{episode_window_is_open}

-- Python's `strip` and the database's `\S` agree on whether the text is blank.
abbrev pub IsReadAlike : (ℕ → Bool) → String → Type 0
IsReadAlike space t = has_text t ≡ matches_nonspace space t

-- The window filter of `eligible_episodes_for_series` and `episode_window_is_open` agree.
pub episode_window_agrees :
    (e : Episode) (now : ℕ)
    → episode_window_is_open e now
      ≡ (started e.window_starts_at now && not_ended e.window_ends_at now)
unfolding episode_window_is_open
episode_window_agrees e now = ground arith

-- With a launch context, a series row is in `eligible_series_queryset` exactly when it is
-- published, `series_is_admitted` admits it, and its text in the context's language is complete in
-- the eyes of the database. The condition: the provenance of a series of its own is blank for
-- Python's `strip` exactly if it is for the database's `\S`.
pub series_query-eq-admission :
    (settings : Settings) (db : Store) (now : ℕ) (s : Series) (context : LaunchContext)
    → resolve_launch_context settings ≡ some context
    → (s.self_owned ≡ true → IsReadAlike db.regex_space s.provenance_reference)
    → in_eligible_series_queryset settings db now s ≡ (
        is_published s.publication_status
        && (series_is_admitted settings db now s none
            && has_metadata db.regex_space context.language s.title s.synopsis s.translations))
unfolding in_eligible_series_queryset series_is_admitted
series_query-eq-admission settings db now s context h alike = elim (Bool-cases s.self_owned) [
  | inl own ↦ ground (arith, alike own)
  | inr licensed ↦ ground arith
]

-- Without a launch context nothing is admitted, listed or eligible.
pub no_context_admits_nothing :
    (settings : Settings) (db : Store) (now : ℕ) (s : Series)
    → resolve_launch_context settings ≡ none
    → (series_is_admitted settings db now s none ≡ false)
      × (in_eligible_series_queryset settings db now s ≡ false)
unfolding in_eligible_series_queryset series_is_admitted
no_context_admits_nothing settings db now s h = ground arith
