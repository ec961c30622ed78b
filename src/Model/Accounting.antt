-- ===== src/Model/Accounting.antt =====
-- backend/apps/wallet/models.py and backend/apps/commerce/models.py.
use shortform_streaming.Prelude.{ℕ, String, Bool, Option}
use shortform_streaming.Prelude.Int.{ℤ}

abbrev pub max_entry_coins : ℕ
max_entry_coins = 2147483647

abbrev pub max_balance_coins : ℕ
max_balance_coins = 9007199254740991

-- `user_profile` is `none` once the account is deleted.
pub record Wallet : Type 0 where
  pub pk : ℕ
  pub user_profile : Option ℕ

pub data Kind : Type 0 where
  purchase unlock correction : Kind

pub record CoinLedgerEntry : Type 0 where
  pub pk : ℕ
  pub wallet : ℕ
  pub reference : ℕ
  pub kind : Kind
  pub amount : ℤ
  pub created_at : ℕ

pub record CoinUnlock : Type 0 where
  pub wallet : ℕ
  pub request_id : ℕ
  pub episode_public_id : ℕ
  pub policy_version : ℕ
  pub expected_coin_price : ℕ
  pub charged_coins : ℕ
  pub ledger_entry : Option ℕ

pub record CoinUnlockCancellation : Type 0 where
  pub wallet : ℕ
  pub request_id : ℕ
  pub episode_public_id : ℕ
  pub policy_version : ℕ
  pub expected_coin_price : ℕ

pub record ApplicationBinding : Type 0 where
  pub app_id : ℕ
  pub application_id : ℕ

pub record PurchaseIdentity : Type 0 where
  pub pk : ℕ
  pub wallet : ℕ

pub data Status : Type 0 where
  credited quarantined : Status

pub data Reason : Type 0 where
  verified_purchase event_conflict unsupported_scope refund_before_credit unsupported_event : Reason
  invalid_quantity identity_conflict unknown_or_deleted_owner refund_after_credit : Reason
  transaction_conflict : Reason

pub record PurchaseDecision : Type 0 where
  pub pk : ℕ
  pub transaction_key : ℕ
  pub claim_fingerprint : ℕ
  pub status : Status
  pub reason : Reason
  pub identity : Option ℕ
  pub ledger_entry : Option ℕ
  pub coins : ℕ
  pub product_id : Option ℕ
  pub application_id : Option ℕ

pub record PurchaseEvent : Type 0 where
  pub event_key : ℕ
  pub fingerprint : ℕ
  pub decision : ℕ
  pub status : Status
  pub reason : Reason

-- The bonus is a decimal of two places: `bonus` is its number of hundredths.
pub record CoinPack : Type 0 where
  pub pk : ℕ
  pub product_id : ℕ
  pub base_coins : ℕ
  pub bonus : ℕ
  pub coins : ℕ
  pub badge : String
  pub highlighted : Bool
  pub sort_order : ℕ
  pub starts_at : Option ℕ
  pub ends_at : Option ℕ
  pub is_active : Bool
  pub retired_at : Option ℕ
  pub created_at : ℕ
