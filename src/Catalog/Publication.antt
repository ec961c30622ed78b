-- ===== src/Catalog/Publication.antt =====
-- backend/apps/catalog/models.py and metadata.py: what the editors may save and publish.
pub mod Gates
use text.Mathlib.Text.{◌==◌ as str_eq}
use shortform_streaming.Prelude.{
  ℕ, String, Bool, true, false, not, ◌&&◌, ◌||◌, Option, none, some, List, [], ◌∷◌, map, any, all,
  find, if◌then◌else◌, contains, has_text, is_some, leb, ltb, ◌==◌,
}
use shortform_streaming.Model.{
  Settings, Store, Series, Episode, EpisodeAccessMode, ContentRight, Translation, MediaAsset,
}
use shortform_streaming.Catalog.Context.{
  LaunchContext, resolve_launch_context, valid_scope, territory_codes, language_codes,
  platform_codes, storefront_codes,
}
use shortform_streaming.Catalog.Rights.{series_is_admitted, has_valid_arrays}
use shortform_streaming.Catalog.Eligibility.{is_published}
use shortform_streaming.Catalog.Episodes.{has_admitted_asset, is_ready}

abbrev full_text : String → String → Option (String × String)
full_text title synopsis =
    if has_text title && has_text synopsis then some (title, synopsis) else none

abbrev translated_text : Option Translation → Option (String × String)
translated_text none = none
translated_text (some t) = some (t.title, t.synopsis)

-- `catalog_metadata`, of a stored item.
unfoldable pub catalog_metadata :
    Settings → String → String → List Translation → Option (String × String)
catalog_metadata settings title synopsis translations = elim (resolve_launch_context settings) [
  | none ↦ none
  | some context ↦
      if str_eq context.language "en"
      then full_text title synopsis
      else translated_text (
          find (λ t. str_eq t.language context.language && has_text t.title && has_text t.synopsis)
            translations)
]

-- `clean` accepts the object, or raises a ValidationError on these fields.
pub data Cleaning : Type 0 where
  accepted : Cleaning
  refused : List String → Cleaning

abbrev pub is_accepted : Cleaning → Bool
is_accepted accepted = true
is_accepted (refused fields) = false

abbrev pub if_any : List String → Cleaning
if_any [] = accepted
if_any (f ∷ fs) = refused (f ∷ fs)

-- `if wrong: errors[field] = …`
abbrev pub note : Bool → String → List String → List String
note wrong field errors = if wrong then field ∷ errors else errors

abbrev pub in_english : Option LaunchContext → Bool
in_english none = false
in_english (some context) = str_eq context.language "en"

-- The errors of a published series.
unfoldable pub series_errors : Settings → Store → ℕ → Series → List String
unfolding catalog_metadata
series_errors settings db now s =
    let english = in_english (resolve_launch_context settings) in
    note (english && not (has_text s.title)) "title" (
      note (english && not (has_text s.synopsis)) "synopsis" (
        note (not (is_some (catalog_metadata settings s.title s.synopsis s.translations)))
          "publication_status"
          (note s.takedown "takedown" (
            note (s.self_owned && not (has_text s.provenance_reference)) "provenance_reference" (
              note (s.self_owned && not s.promotional_use_approved) "promotional_use_approved" (
                note (not (series_is_admitted settings db now s none)) "publication_status" []))))))

-- The first distribution scope that is no array of valid codes.
unfoldable pub wrong_scope : Series → Option String
wrong_scope s =
    if not (valid_scope s.distribution_territories territory_codes false)
    then some "distribution_territories"
    else if not (valid_scope s.distribution_platforms platform_codes false)
    then some "distribution_platforms"
    else if not (valid_scope s.distribution_storefronts storefront_codes false)
    then some "distribution_storefronts"
    else if not (valid_scope s.distribution_languages language_codes false)
    then some "distribution_languages"
    else none

-- `Series.clean`
unfoldable pub series_clean : Settings → Store → ℕ → Series → Cleaning
unfolding wrong_scope series_errors
series_clean settings db now s = elim (wrong_scope s) [
  | some field ↦ refused (field ∷ [])
  | none ↦
      if not (contains s.original_language language_codes)
      then refused ("original_language" ∷ [])
      else if not (is_published s.publication_status)
      then accepted
      else if_any (series_errors settings db now s)
]

-- `Series.is_publishable` and `Series.has_publishable_right`
unfoldable pub is_publishable : Settings → Store → ℕ → Series → Bool
unfolding catalog_metadata
is_publishable settings db now s =
    is_some (catalog_metadata settings s.title s.synopsis s.translations)
    && series_is_admitted settings db now s none

unfoldable pub has_publishable_right : Settings → Store → ℕ → Series → Bool
has_publishable_right settings db now s =
    not s.self_owned && series_is_admitted settings db now s none

abbrev takes_coins : EpisodeAccessMode → Bool
takes_coins EpisodeAccessMode.coin = true
takes_coins EpisodeAccessMode.both = true
takes_coins _ = false

abbrev has_price : Option ℕ → Bool
has_price none = false
has_price (some price) = leb 1 price

-- The price that the access mode asks for or refuses.
unfoldable pub price_fits : Episode → Bool
price_fits e =
    if takes_coins e.access_mode then has_price e.coin_price else not (is_some e.coin_price)

-- The errors of a published episode that is stored.
unfoldable pub episode_errors : Settings → Store → ℕ → Series → Episode → List String
unfolding is_publishable
episode_errors settings db now series e = note (ltb e.duration_seconds 1) "duration_seconds" (
    note (not (is_some (catalog_metadata settings e.title e.synopsis e.translations)))
      "publication_status"
      (note (not (is_publishable settings db now series)) "publication_status"
        (note (not (has_admitted_asset settings db now series e.pk)) "publication_status" [])))

-- `Episode.clean` of a stored episode; `season_series` is the series of its season.
unfoldable pub episode_clean : Settings → Store → ℕ → Series → ℕ → Episode → Cleaning
unfolding price_fits episode_errors
episode_clean settings db now series season_series e =
    if not (price_fits e)
    then refused ("coin_price" ∷ [])
    else if not (season_series == e.series_id)
    then refused ("season" ∷ [])
    else if not (is_published e.publication_status)
    then accepted
    else if_any (episode_errors settings db now series e)

-- `has_ready_media_asset`
unfoldable pub has_ready_media_asset : Store → Episode → Bool
has_ready_media_asset db e = any (λ a. a.episode_id == e.pk && is_ready a.state) db.assets

-- What Python's `str` computes.
pub record StringMethods : Type 0 where
  pub strip : String → String
  pub upper : String → String
  pub lower : String → String

-- `_dedupe_codes` from the codes `seen` on; `codes` is the result so far.
unfoldable pub dedupe_from : (String → String) → List String → List String → List String
dedupe_from normal seen [] = []
dedupe_from normal seen (raw ∷ values) =
    let code = normal raw in
    let rest = dedupe_from normal seen values in
    let others = dedupe_from normal (code ∷ seen) values in
    if contains code seen then rest else code ∷ others

unfoldable pub normalize_territory_codes : StringMethods → List String → List String
unfolding dedupe_from
normalize_territory_codes str values = dedupe_from (λ v. str.upper (str.strip v)) [] values

unfoldable pub normalize_language_codes : StringMethods → List String → List String
unfolding dedupe_from
normalize_language_codes str values = dedupe_from (λ v. str.lower (str.strip v)) [] values

unfoldable pub normalize_platforms : StringMethods → List String → List String
unfolding dedupe_from
normalize_platforms str values = dedupe_from (λ v. str.lower (str.strip v)) [] values

-- The columns as `ContentRight.save` and `clean` normalize them.
unfoldable pub normalized_right : StringMethods → ContentRight → ContentRight
unfolding normalize_territory_codes normalize_language_codes normalize_platforms
normalized_right str r = record r {
  territory_allowlist = normalize_territory_codes str r.territory_allowlist;
  territory_denylist = normalize_territory_codes str r.territory_denylist;
  platforms = normalize_platforms str r.platforms;
  languages = normalize_language_codes str r.languages;
  storefronts = normalize_platforms str r.storefronts;
  original_languages = normalize_language_codes str r.original_languages;
  subtitle_languages = normalize_language_codes str r.subtitle_languages;
  dub_languages = normalize_language_codes str r.dub_languages;
}

abbrev is_empty : List String → Bool
is_empty [] = true
is_empty (c ∷ cs) = false

abbrev ends_after : ContentRight → Bool
ends_after r = elim r.ends_at [ none ↦ true | some t ↦ ltb r.starts_at t ]

-- The errors of a normalized right.
unfoldable pub right_errors : ContentRight → List String
right_errors r = note (not (valid_scope r.storefronts storefront_codes true)) "storefronts" (
    note (not (valid_scope r.original_languages language_codes true)) "original_languages" (
      note (not (valid_scope r.subtitle_languages language_codes true)) "subtitle_languages" (
        note (not (valid_scope r.dub_languages language_codes true)) "dub_languages" (
          note (not (has_text r.licensor)) "licensor" (
            note (not (has_text r.contract_reference)) "contract_reference" (
              note (not (valid_scope r.territory_allowlist territory_codes false))
                "territory_allowlist"
                (note (not (valid_scope r.territory_denylist territory_codes true))
                  "territory_denylist"
                  (note (not (valid_scope r.platforms platform_codes false)) "platforms" (
                    note (not (valid_scope r.languages language_codes false)) "languages"
                      (note (not (ends_after r)) "ends_at" []))))))))))

-- `ContentRight.clean`
unfoldable pub right_clean : StringMethods → ContentRight → Cleaning
unfolding normalized_right right_errors
right_clean str r = if_any (right_errors (normalized_right str r))

-- `is_structurally_publishable`
unfoldable pub is_structurally_publishable : ContentRight → Bool
unfolding has_valid_arrays
is_structurally_publishable r =
    not r.takedown
    && not r.drm_required
    && r.promotional_clip_permission
    && r.free_access_permission
    && r.rewarded_ad_permission
    && r.coin_access_permission
    && r.paid_promotion_permission
    && has_text r.licensor
    && has_text r.contract_reference
    && has_text r.revenue_share_rule_reference
    && has_valid_arrays r
    && ends_after r
