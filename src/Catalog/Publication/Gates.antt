-- ===== src/Catalog/Publication/Gates.antt =====
-- The publication gates of backend/apps/catalog/models.py against what is served.
use text.Mathlib.Text.{◌==◌ as str_eq}
use shortform_streaming.Prelude.{
  ℕ, ◌≡◌, refl, String, Bool, true, false, not, ◌&&◌, none, some, List, [], ◌∷◌, arith, inl, inr,
  Option-cases, Bool-cases, sym, ◌∙◌, contains, find, any, is_some, has_text, matches_nonspace,
}
use shortform_streaming.Model.{Settings, Store, Series, Translation}
use shortform_streaming.Catalog.Context.{LaunchContext, resolve_launch_context, language_codes}
use shortform_streaming.Catalog.Rights.{series_is_admitted, in_scope}
use shortform_streaming.Catalog.Eligibility.{
  is_published, is_translated, has_metadata, in_eligible_series_queryset,
}
use mathlib.Core.List.{Memᴰ}
use shortform_streaming.Catalog.Agreement.{
  IsReadAlike, series_query-eq-admission, no_context_admits_nothing,
}
use shortform_streaming.Catalog.Publication.{
  catalog_metadata, is_accepted, in_english, series_errors, wrong_scope, series_clean,
}

module _ {ℓ} {A : Type ℓ} where
  any-eq-is_some : (p : A → Bool) (xs : List A) → any p xs ≡ is_some (find p xs)
  any-eq-is_some p [] = refl
  any-eq-is_some p (x ∷ xs) = ground (arith, any-eq-is_some p xs)

any_congruent :
    (p q : Translation → Bool) (ts : List Translation)
    → ((t : Translation) → Memᴰ t ts → p t ≡ q t)
    → any p ts ≡ any q ts
any_congruent p q [] same = refl
any_congruent p q (t ∷ ts) same =
    ground (arith, same t (Memᴰ.head refl), any_congruent p q ts (λ x m. same x (Memᴰ.tail m)))

-- The texts of the series that are asked for are read alike by Python and by the database.
pub record AreReadAlike (space : ℕ → Bool) (s : Series) : Type 0 where
  pub provenance : s.self_owned ≡ true → IsReadAlike space s.provenance_reference
  pub title : IsReadAlike space s.title
  pub synopsis : IsReadAlike space s.synopsis
  pub translations :
      (t : Translation)
      → Memᴰ t s.translations
      → IsReadAlike space t.title × IsReadAlike space t.synopsis

metadata_agrees :
    (space : ℕ → Bool) (settings : Settings) (context : LaunchContext) (title synopsis : String)
    (ts : List Translation)
    → resolve_launch_context settings ≡ some context
    → IsReadAlike space title
    → IsReadAlike space synopsis
    → ((t : Translation) → Memᴰ t ts → IsReadAlike space t.title × IsReadAlike space t.synopsis)
    → is_some (catalog_metadata settings title synopsis ts)
      ≡ has_metadata space context.language title synopsis ts
unfolding catalog_metadata has_metadata is_translated
metadata_agrees space settings context title synopsis ts known a b translations = ground (
  arith,
  known,
  a,
  b,
  any-eq-is_some
      (λ t. str_eq t.language context.language && has_text t.title && has_text t.synopsis) ts,
  any_congruent (λ t. str_eq t.language context.language && has_text t.title && has_text t.synopsis)
      (λ t.
        str_eq t.language context.language
        && matches_nonspace space t.title
        && matches_nonspace space t.synopsis)
      ts (λ t m. ground (arith, translations t m)),
)

-- Admission already asks for what `clean` checks before it.
admitted_parts :
    (settings : Settings) (db : Store) (now : ℕ) (s : Series)
    → series_is_admitted settings db now s none ≡ true
    → (wrong_scope s ≡ none)
      × (contains s.original_language language_codes ≡ true)
      × (s.takedown ≡ false)
      × ((s.self_owned && not (has_text s.provenance_reference)) ≡ false)
      × ((s.self_owned && not s.promotional_use_approved) ≡ false)
unfolding series_is_admitted in_scope wrong_scope
admitted_parts settings db now s admitted = ground arith

english_text :
    (settings : Settings) (title synopsis : String) (ts : List Translation)
    → is_some (catalog_metadata settings title synopsis ts) ≡ true
    → let english = in_english (resolve_launch_context settings) in
      ((english && not (has_text title)) ≡ false) × ((english && not (has_text synopsis)) ≡ false)
unfolding catalog_metadata
english_text settings title synopsis ts complete = ground arith

module _ (settings : Settings) (db : Store) (now : ℕ) (s : Series)
    (published : is_published s.publication_status ≡ true) where
  clean_refuses :
      series_is_admitted settings db now s none ≡ false
      → is_accepted (series_clean settings db now s) ≡ false
  unfolding series_clean series_errors
  clean_refuses other = ground (arith, other)

  clean_needs_text :
      is_some (catalog_metadata settings s.title s.synopsis s.translations) ≡ false
      → is_accepted (series_clean settings db now s) ≡ false
  unfolding series_clean series_errors
  clean_needs_text incomplete = ground (arith, incomplete)

  no_errors :
      series_is_admitted settings db now s none ≡ true
      → is_some (catalog_metadata settings s.title s.synopsis s.translations) ≡ true
      → series_errors settings db now s ≡ []
  unfolding series_errors
  no_errors admitted complete =
      let (scoped, language, active, provenance, promotional) =
        admitted_parts settings db now s admitted in
      let (title, synopsis) = english_text settings s.title s.synopsis s.translations complete in
      rw (admitted, title, synopsis, complete, provenance, promotional, active) refl

  clean_accepts :
      series_is_admitted settings db now s none ≡ true
      → is_some (catalog_metadata settings s.title s.synopsis s.translations) ≡ true
      → is_accepted (series_clean settings db now s) ≡ true
  unfolding series_clean
  clean_accepts admitted complete =
      let (scoped, language, active, provenance, promotional) =
        admitted_parts settings db now s admitted in
      ground (arith, scoped, language, published, no_errors admitted complete)

  clean_decides : is_accepted (series_clean settings db now s) ≡ (
      series_is_admitted settings db now s none
      && is_some (catalog_metadata settings s.title s.synopsis s.translations))
  clean_decides = elim (Bool-cases (series_is_admitted settings db now s none)) [
    | inr other ↦ clean_refuses other ∙ rw other refl
    | inl admitted ↦
        elim (Bool-cases (is_some (catalog_metadata settings s.title s.synopsis s.translations))) [
          | inr incomplete ↦ clean_needs_text incomplete ∙ rw (admitted, incomplete) refl
          | inl complete ↦ clean_accepts admitted complete ∙ rw (admitted, complete) refl
        ]
  ]

  -- For a series that is to be published, `clean` accepts it exactly if its row, once saved, is in
  -- the query for eligible series at the same instant. The condition: Python's `strip` and the
  -- database's `\S` agree on which of its texts are blank.
  pub series_clean-eq-query :
      AreReadAlike db.regex_space s
      → is_accepted (series_clean settings db now s) ≡ in_eligible_series_queryset settings db now s
  series_clean-eq-query alike = elim (Option-cases (resolve_launch_context settings)) [
    | inl off ↦
        let (refused, unlisted) = no_context_admits_nothing settings db now s off in
        clean_refuses refused ∙ sym unlisted
    | inr (context, known) ↦
        let query = series_query-eq-admission settings db now s context known alike.provenance in
        let text =
          metadata_agrees db.regex_space settings context s.title s.synopsis s.translations known
            alike.title alike.synopsis alike.translations in
        clean_decides ∙ rw (text, query, published) refl
  ]
