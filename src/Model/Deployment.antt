-- ===== src/Model/Deployment.antt =====
-- backend/config/settings: the deployment values that the modelled code reads. Digests, the
-- environment's part, are functions. A setting that is absent has its `getattr` default here.
use shortform_streaming.Prelude.{ℕ, Bool, String, Option}

-- COIN_SPENDING_MODE
pub data SpendingMode : Type 0 where
  test revenuecat_sandbox other_mode : SpendingMode

-- COIN_PURCHASE_MODE
pub data PurchaseMode : Type 0 where
  disabled test revenuecat_sandbox other_mode : PurchaseMode

-- REWARDED_ADS_MODE, which base.py holds to these three
pub data AdsMode : Type 0 where
  disabled test production : AdsMode

-- What a dict of settings holds under a key.
pub data SettingValue : Type 0 where
  absent other_value : SettingValue
  text : String → SettingValue

-- CATALOG_LAUNCH_CONTEXT, where it is a dict. `enabled` says whether that value is `True`.
pub record LaunchValue : Type 0 where
  pub enabled : Bool
  pub country : SettingValue
  pub platform : SettingValue
  pub storefront : SettingValue
  pub language : SettingValue
  pub audience_segment : SettingValue

-- An ad unit such as `ca-app-pub-…/…`: the whole text and what stands behind its last slash.
pub record AdUnit : Type 0 where
  pub whole : ℕ
  pub last_part : ℕ

pub record Settings : Type 0 where
  pub debug : Bool
  pub hosted_sandbox : Bool
  pub coin_spending_mode : SpendingMode
  pub coin_purchase_mode : PurchaseMode
  pub rewarded_ads_mode : AdsMode
  pub rewarded_ads_unit_id : AdUnit
  pub catalog_launch_context : Option LaunchValue
