-- ===== src/Service.antt =====
-- The services that write to the database, as one step relation.
pub mod Histories
pub mod Ledger
use shortform_streaming.Prelude.{ℕ, ◌≡◌, Bool, Option}
use shortform_streaming.Prelude.Int.{ℤ}
use shortform_streaming.Model.{
  UserProfile, AccountDeletion, CoinUnlock, RewardIntent, PurchaseIdentity, PurchaseEvent, Event,
  Environment, Store, ok,
}
use shortform_streaming.Accounts.{VerifiedToken, request_account_deletion, process_account_deletion}
use shortform_streaming.Wallet.Unlocks.{UnlockRequest, Resolution, unlock_episode, resolve_unlock}
use shortform_streaming.Commerce.Identities.{purchase_identity}
use shortform_streaming.Commerce.Fulfilment.{fulfill}
use shortform_streaming.Advertising.Intents.{Clocks, create_reward_intent}
use shortform_streaming.Advertising.Rewards.{VerifiedReward, grant_verified_reward}

-- One committed call. A call that raises is rolled back and is no step.
pub data Step (env : Environment) (db db' : Store) : Type 0 where
  unlocking :
      (now later : ℕ) (profile : UserProfile) (r : UnlockRequest) (x : CoinUnlock × ℤ)
      → unlock_episode env now later profile r db ≡ ok x db'
      → Step env db db'
  resolving :
      (profile : UserProfile) (r : UnlockRequest) (x : Resolution × ℤ)
      → resolve_unlock env profile r db ≡ ok x db'
      → Step env db db'
  identifying :
      (profile : UserProfile) (x : PurchaseIdentity)
      → purchase_identity env profile db ≡ ok x db'
      → Step env db db'
  fulfilling :
      (now : ℕ) (event : Event) (x : PurchaseEvent)
      → fulfill env now event db ≡ ok x db'
      → Step env db db'
  intending :
      (clocks : Clocks) (profile : UserProfile) (episode request : ℕ) (expected : Option ℕ)
      (x : RewardIntent × Bool)
      → create_reward_intent env clocks profile episode request expected db ≡ ok x db'
      → Step env db db'
  granting :
      (now later : ℕ) (c : VerifiedReward)
      → grant_verified_reward env now later c db ≡ ok tt db'
      → Step env db db'
  deleting :
      (now : ℕ) (token : VerifiedToken) (x : AccountDeletion)
      → request_account_deletion env now token db ≡ ok x db'
      → Step env db db'
  processing :
      (provider_ok : Bool) (now : ℕ) (public_id : ℕ) (x : AccountDeletion)
      → process_account_deletion provider_ok now public_id db ≡ ok x db'
      → Step env db db'

-- A history: calls one after another, in the order in which they commit.
pub data Reach (env : Environment) (db : Store) : Store → Type 0 where
  start : Reach env db db
  next : {mid db' : Store} → Reach env db mid → Step env mid db' → Reach env db db'
