-- ===== src/Catalog/Eligibility.antt =====
-- backend/apps/catalog/eligibility.py: published series.
use text.Mathlib.Text.{◌==◌ as str_eq}
use shortform_streaming.Prelude.{
  ℕ, String, Bool, true, false, not, ◌&&◌, ◌||◌, none, some, List, if◌then◌else◌, contains, any,
  ◌==◌, matches_nonspace,
}
use shortform_streaming.Model.{Settings, Series, Store, Translation, PublicationStatus}
use shortform_streaming.Catalog.Context.{
  LaunchContext, resolve_launch_context, valid_scope, territory_codes, language_codes,
  platform_codes, storefront_codes,
}
use shortform_streaming.Catalog.Rights.{has_matching_right, in_segment}

abbrev pub is_published : PublicationStatus → Bool
is_published PublicationStatus.draft = false
is_published PublicationStatus.published = true

-- One translation row in the language with a title and a synopsis.
unfoldable pub is_translated : (ℕ → Bool) → String → List Translation → Bool
is_translated space language translations =
    any
      (λ t.
        str_eq t.language language
        && matches_nonspace space t.title
        && matches_nonspace space t.synopsis)
      translations

-- The text that the selected language needs: the direct fields for English.
unfoldable pub has_metadata : (ℕ → Bool) → String → String → String → List Translation → Bool
unfolding is_translated
has_metadata space language title synopsis translations =
    if str_eq language "en"
    then matches_nonspace space title && matches_nonspace space synopsis
    else is_translated space language translations

-- The row `s` passes the filters of `eligible_series_queryset`.
unfoldable pub is_eligible_row : Store → LaunchContext → ℕ → Series → Bool
unfolding has_metadata
is_eligible_row db context now s =
    is_published s.publication_status
    && not s.takedown
    && contains s.original_language language_codes
    && contains context.country s.distribution_territories
    && contains context.platform s.distribution_platforms
    && contains context.storefront s.distribution_storefronts
    && contains context.language s.distribution_languages
    && ((s.self_owned
          && s.promotional_use_approved
          && matches_nonspace db.regex_space s.provenance_reference)
        || (not s.self_owned && has_matching_right db context now s none))
    && valid_scope s.distribution_territories territory_codes false
    && valid_scope s.distribution_platforms platform_codes false
    && valid_scope s.distribution_storefronts storefront_codes false
    && valid_scope s.distribution_languages language_codes false
    && in_segment context.audience_segment s
    && has_metadata db.regex_space context.language s.title s.synopsis s.translations

unfoldable pub in_eligible_series_queryset : Settings → Store → ℕ → Series → Bool
unfolding is_eligible_row
in_eligible_series_queryset settings db now s = elim (resolve_launch_context settings) [
  | none ↦ false
  | some context ↦ is_eligible_row db context now s
]

-- The series object may be older than its row, which the query reads.
unfoldable pub series_is_eligible : Settings → Store → ℕ → Series → Bool
unfolding in_eligible_series_queryset
series_is_eligible settings db now series =
    is_published series.publication_status
    && any (λ row. row.pk == series.pk && in_eligible_series_queryset settings db now row) db.series
