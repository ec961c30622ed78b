-- ===== src/Catalog/Context.antt =====
-- backend/apps/catalog/context.py. A pattern over codes is the list of the codes that it matches
-- as a whole.
use Prim.Native.Char.{code}
use text.Mathlib.Text.{◌==◌ as str_eq}
use shortform_streaming.Prelude.{
  ℕ, String, Bool, true, false, ◌&&◌, ◌||◌, Option, none, some, List, [], ◌∷◌, if◌then◌else◌,
  contains, all, leb, ◌==◌,
}
use shortform_streaming.Model.{Settings, LaunchValue, SettingValue}
use shortform_streaming.Catalog.IsoCodes.{iso_countries, iso_languages}

-- TERRITORY, LANGUAGE, PLATFORM, STOREFRONT
unfoldable pub territory_codes : List String
unfolding iso_countries
territory_codes = iso_countries

unfoldable pub language_codes : List String
unfolding iso_languages
language_codes = iso_languages

unfoldable pub platform_codes : List String
platform_codes = "android" ∷ "ios" ∷ []

unfoldable pub storefront_codes : List String
storefront_codes = "google_play" ∷ "app_store" ∷ []

abbrev is_nonempty : List String → Bool
is_nonempty [] = false
is_nonempty (c ∷ cs) = true

-- `valid_scope(values, pattern, empty=empty)`, and the check of an array by `_validated_arrays`.
unfoldable pub valid_scope : List String → List String → Bool → Bool
valid_scope values codes empty = (empty || is_nonempty values) && all (λ c. contains c codes) values

-- PLATFORM_STOREFRONTS.get(platform) == storefront
unfoldable pub storefront_of_platform : String → String → Bool
storefront_of_platform platform storefront =
    (str_eq platform "android" && str_eq storefront "google_play")
    || (str_eq platform "ios" && str_eq storefront "app_store")

abbrev is_slug_char : ℕ → Bool
is_slug_char c = (leb b'a' c && leb c b'z') || (leb b'0' c && leb c b'9')

-- `[a-z0-9]+(?:-[a-z0-9]+)*`; the flag says that a character must follow.
unfoldable pub is_slug : Bool → String → Bool
is_slug true String.[] = false
is_slug false String.[] = true
is_slug wants (String.◌∷◌ c s) =
    let plain = is_slug false s in
    let dashed = is_slug true s in
    if is_slug_char (code c)
    then plain
    else elim wants [ true ↦ false | false ↦ code c == b'-' && dashed ]

pub record LaunchContext : Type 0 where
  pub country : String
  pub platform : String
  pub storefront : String
  pub language : String
  pub audience_segment : Option String

-- The segment of a context: `none` where the value is refused.
unfoldable pub audience_segment_of : SettingValue → Option (Option String)
unfolding is_slug
audience_segment_of SettingValue.absent = some none
audience_segment_of SettingValue.other_value = none
audience_segment_of (SettingValue.text s) = if is_slug true s then some (some s) else none

launch_context : String → String → String → String → SettingValue → Option LaunchContext
unfolding audience_segment_of territory_codes language_codes storefront_of_platform
launch_context country platform storefront language segment =
    if contains country territory_codes
      && contains language language_codes
      && storefront_of_platform platform storefront
    then elim (audience_segment_of segment) [
      | none ↦ none
      | some audience ↦ some (record {
        country = country;
        platform = platform;
        storefront = storefront;
        language = language;
        audience_segment = audience;
      })
    ]
    else none

texts_context :
    SettingValue → SettingValue → SettingValue → SettingValue → SettingValue → Option LaunchContext
unfolding launch_context
texts_context (SettingValue.text c) (SettingValue.text p) (SettingValue.text f)
      (SettingValue.text l) s =
    launch_context c p f l s
texts_context _ _ _ _ s = none

enabled_context : LaunchValue → Option LaunchContext
unfolding texts_context
enabled_context v =
    if v.enabled
    then texts_context v.country v.platform v.storefront v.language v.audience_segment
    else none

unfoldable pub resolve_launch_context : Settings → Option LaunchContext
unfolding enabled_context
resolve_launch_context settings = elim settings.catalog_launch_context [
  | none ↦ none
  | some value ↦ enabled_context value
]
