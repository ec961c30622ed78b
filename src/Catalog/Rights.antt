-- ===== src/Catalog/Rights.antt =====
-- backend/apps/catalog/eligibility.py: the rights that admit a series, `series_is_admitted`.
use shortform_streaming.Prelude.{
  ℕ, String, Bool, true, false, not, ◌&&◌, ◌||◌, Option, none, some, if◌then◌else◌, contains, any,
  leb, ltb, ◌==◌, has_text, matches_nonspace,
}
use shortform_streaming.Model.{Settings, Series, ContentRight, Store}
use shortform_streaming.Catalog.Context.{
  LaunchContext, resolve_launch_context, valid_scope, territory_codes, language_codes,
  platform_codes, storefront_codes,
}

-- `starts_at IS NULL OR starts_at <= now`, `ends_at IS NULL OR ends_at > now`
abbrev pub started : Option ℕ → ℕ → Bool
started none now = true
started (some t) now = leb t now

abbrev pub not_ended : Option ℕ → ℕ → Bool
not_ended none now = true
not_ended (some t) now = ltb now t

-- `matching_licensed_rights_q`
unfoldable pub is_licensed : (ℕ → Bool) → LaunchContext → ℕ → ContentRight → Bool
is_licensed space context now r =
    not r.takedown
    && not r.drm_required
    && r.promotional_clip_permission
    && r.free_access_permission
    && r.rewarded_ad_permission
    && r.coin_access_permission
    && r.paid_promotion_permission
    && matches_nonspace space r.licensor
    && matches_nonspace space r.contract_reference
    && matches_nonspace space r.revenue_share_rule_reference
    && leb r.starts_at now
    && contains context.country r.territory_allowlist
    && contains context.platform r.platforms
    && contains context.storefront r.storefronts
    && contains context.language r.languages
    && not (contains context.country r.territory_denylist)
    && not_ended r.ends_at now

-- The arrays that `_matching_rights` validates.
unfoldable pub has_valid_arrays : ContentRight → Bool
has_valid_arrays r =
    valid_scope r.territory_allowlist territory_codes false
    && valid_scope r.territory_denylist territory_codes true
    && valid_scope r.platforms platform_codes false
    && valid_scope r.storefronts storefront_codes false
    && valid_scope r.languages language_codes false
    && valid_scope r.original_languages language_codes false
    && valid_scope r.subtitle_languages language_codes true
    && valid_scope r.dub_languages language_codes true

-- The extra filter for captions, which is also `caption_rights` of `admitted_media_assets`.
unfoldable pub licenses_captions : Option String → ContentRight → Bool
licenses_captions none r = true
licenses_captions (some l) r = contains l r.subtitle_languages && contains l r.languages

-- `_matching_rights`; every caller passes one source language.
unfoldable pub matches_right :
    (ℕ → Bool) → LaunchContext → ℕ → String → Option String → ContentRight → Bool
unfolding is_licensed has_valid_arrays licenses_captions
matches_right space context now source captions r =
    is_licensed space context now r
    && contains source r.original_languages
    && contains source r.languages
    && (contains context.language r.original_languages
        || contains context.language r.subtitle_languages)
    && licenses_captions captions r
    && has_valid_arrays r

-- `_matching_rights(…).filter(series_id=series.pk).exists()`
unfoldable pub has_matching_right : Store → LaunchContext → ℕ → Series → Option String → Bool
unfolding matches_right
has_matching_right db context now series captions =
    any
      (λ r.
        r.series_id == series.pk
        && matches_right db.regex_space context now series.original_language captions r)
      db.rights

-- The four scopes of `series_is_admitted`.
unfoldable pub in_scope : LaunchContext → Series → Bool
in_scope context s =
    (valid_scope s.distribution_territories territory_codes false
      && contains context.country s.distribution_territories)
    && (valid_scope s.distribution_platforms platform_codes false
        && contains context.platform s.distribution_platforms)
    && (valid_scope s.distribution_storefronts storefront_codes false
        && contains context.storefront s.distribution_storefronts)
    && (valid_scope s.distribution_languages language_codes false
        && contains context.language s.distribution_languages)

abbrev pub in_segment : Option String → Series → Bool
in_segment none s = true
in_segment (some slug) s = contains slug s.content_segments

abbrev pub valid_captions_language : Option String → Bool
valid_captions_language none = true
valid_captions_language (some l) = contains l language_codes

admitted_in : Store → LaunchContext → ℕ → Series → Option String → Bool
unfolding in_scope has_matching_right
admitted_in db context now s captions =
    if s.takedown
    then false
    else if not (in_scope context s)
    then false
    else if not (contains s.original_language language_codes)
    then false
    else if not (valid_captions_language captions)
    then false
    else if not (in_segment context.audience_segment s)
    then false
    else if s.self_owned
    then has_text s.provenance_reference && s.promotional_use_approved
    else has_matching_right db context now s captions

-- A stored series: `series.pk` is set.
unfoldable pub series_is_admitted : Settings → Store → ℕ → Series → Option String → Bool
unfolding admitted_in
series_is_admitted settings db now s captions = elim (resolve_launch_context settings) [
  | none ↦ false
  | some context ↦ admitted_in db context now s captions
]
