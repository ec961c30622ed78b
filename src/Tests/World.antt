-- ===== src/Tests/World.antt =====
-- One series with one episode, one account with a wallet of twenty coins, and one product.
use shortform_streaming.Prelude.{
  ℕ, ◌+◌, leb, ◌==◌, ◌&&◌, ◌||◌, true, false, none, some, [], ◌∷◌, List,
}
use shortform_streaming.Prelude.Int.{pos}
use shortform_streaming.Model.{
  Settings, SpendingMode, PurchaseMode, AdsMode, SettingValue, Environment, Product, Store, Series,
  Episode, LoadedEpisode, MediaAsset, MediaAssetState, PublicationStatus, EpisodeAccessMode,
  UserProfile, Wallet, Kind, CoinLedgerEntry, CoinPack, RewardIntent,
}

abbrev pub settings : Settings
settings = record {
  debug = true;
  hosted_sandbox = false;
  coin_spending_mode = SpendingMode.test;
  coin_purchase_mode = PurchaseMode.test;
  rewarded_ads_mode = AdsMode.test;
  rewarded_ads_unit_id = record { whole = 1; last_part = 2 };
  catalog_launch_context = some (record {
    enabled = true;
    country = SettingValue.text "FR";
    platform = SettingValue.text "android";
    storefront = SettingValue.text "google_play";
    language = SettingValue.text "en";
    audience_segment = SettingValue.absent;
  });
}

abbrev pub product : Product
product = record {
  app_id = 1;
  application_id = 2;
  product_id = 3;
  coins = 100;
  store = 1;
  environment = 1;
}

abbrev first_or_zero : List ℕ → ℕ
first_or_zero [] = 0
first_or_zero (n ∷ ns) = n

abbrev pub environment : Environment
environment = record {
  settings = settings;
  products = product ∷ [];
  deletion_fingerprint = λ uid. uid;
  policy_digest = λ inputs. inputs.episode_id + 50;
  digest = first_or_zero;
  event_digest = λ event. event.event_key;
}

abbrev pub series : Series
series = record {
  pk = 1;
  public_id = 5;
  title = "Title";
  synopsis = "Synopsis";
  publication_status = PublicationStatus.published;
  original_language = "en";
  content_segments = [];
  distribution_territories = "FR" ∷ [];
  distribution_platforms = "android" ∷ [];
  distribution_storefronts = "google_play" ∷ [];
  distribution_languages = "en" ∷ [];
  self_owned = true;
  provenance_reference = "Studio";
  promotional_use_approved = true;
  takedown = false;
  free_episode_count = 0;
  rewarded_ads_enabled = true;
  translations = [];
}

abbrev pub episode : Episode
episode = record {
  pk = 1;
  public_id = 10;
  series_id = 1;
  order = 1;
  access_mode = EpisodeAccessMode.both;
  coin_price = some 5;
  title = "Episode";
  synopsis = "Synopsis";
  duration_seconds = 100;
  publication_status = PublicationStatus.published;
  window_starts_at = none;
  window_ends_at = none;
  translations = [];
}

abbrev pub loaded : LoadedEpisode
loaded = record { episode = episode; series = series }

abbrev pub asset : MediaAsset
asset = record {
  pk = 1;
  episode_id = 1;
  checksum = 1;
  provider_asset_id = some 1;
  state = MediaAssetState.ready;
  captions_language = "en";
  has_captions = true;
  thumbnail_count = 1;
  duration_seconds = some 100;
  renditions = 1;
  diagnostic_message = none;
}

abbrev pub profile : UserProfile
profile = record { pk = 1; firebase_uid = 11; ads_consent = true }

abbrev pub wallet : Wallet
wallet = record { pk = 1; user_profile = some 1 }

abbrev pub entry : CoinLedgerEntry
entry = record {
  pk = 1;
  wallet = 1;
  reference = 1;
  kind = Kind.purchase;
  amount = pos 20;
  created_at = 0;
}

abbrev pub pack : CoinPack
pack = record {
  pk = 1;
  product_id = 3;
  base_coins = 100;
  bonus = 50;
  coins = 150;
  badge = "";
  highlighted = false;
  sort_order = 1;
  starts_at = none;
  ends_at = none;
  is_active = true;
  retired_at = none;
  created_at = 0;
}

abbrev pub intent : RewardIntent
intent = record {
  pk = 1;
  user_profile = 1;
  episode = 1;
  request_id = 1;
  custom_data = 8;
  ssv_user_id = 9;
  ad_unit_id = record { whole = 1; last_part = 2 };
  policy_version = some 51;
  created_at = 0;
  expires_at = 900000000;
  granted_at = none;
  provider_transaction_id = none;
  provider_timestamp = none;
}

abbrev pub db : Store
db = record {
  profiles = profile ∷ [];
  deletions = [];
  series = series ∷ [];
  episodes = episode ∷ [];
  rights = [];
  assets = asset ∷ [];
  entitlements = [];
  intents = intent ∷ [];
  wallets = wallet ∷ [];
  entries = entry ∷ [];
  unlocks = [];
  cancellations = [];
  identities = record { pk = 4; wallet = 1 } ∷ [];
  bindings = [];
  decisions = [];
  events = [];
  packs = pack ∷ [];
  progress = [];
  regex_space = λ c. (leb 9 c && leb c 13) || c == 32;
  next_id = 1000;
}
