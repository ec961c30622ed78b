-- ===== src/Model/Database.antt =====
-- The database as one value.
use shortform_streaming.Prelude.{ℕ, Bool, List}
use shortform_streaming.Model.Catalog.{Series, Episode, ContentRight, MediaAsset}
use shortform_streaming.Model.Accounts.{
  UserProfile, AccountDeletion, EpisodeEntitlement, RewardIntent, WatchProgress,
}
use shortform_streaming.Model.Accounting.{
  Wallet, CoinLedgerEntry, CoinUnlock, CoinUnlockCancellation, ApplicationBinding, PurchaseIdentity,
  PurchaseDecision, PurchaseEvent, CoinPack,
}

-- Each table lists its newest row first. `next_id` is the next unused key: keys, UUIDs and random
-- bindings are drawn from it, so two draws differ. `regex_space` is what `\s` matches in the
-- database's regular expressions.
pub record Store : Type 0 where
  pub profiles : List UserProfile
  pub deletions : List AccountDeletion
  pub series : List Series
  pub episodes : List Episode
  pub rights : List ContentRight
  pub assets : List MediaAsset
  pub entitlements : List EpisodeEntitlement
  pub intents : List RewardIntent
  pub wallets : List Wallet
  pub entries : List CoinLedgerEntry
  pub unlocks : List CoinUnlock
  pub cancellations : List CoinUnlockCancellation
  pub identities : List PurchaseIdentity
  pub bindings : List ApplicationBinding
  pub decisions : List PurchaseDecision
  pub events : List PurchaseEvent
  pub packs : List CoinPack
  pub progress : List WatchProgress
  pub regex_space : ℕ → Bool
  pub next_id : ℕ
