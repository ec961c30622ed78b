-- ===== src/Service/Ledger/Untouched.antt =====
-- The services of backend/apps that leave the coin ledger alone.
use shortform_streaming.Prelude.{ℕ, ◌≡◌, refl, ◌∙◌, Bool, Option, none, some, List, arith}
use shortform_streaming.Model.{
  UserProfile, AccountDeletion, CoinLedgerEntry, RewardIntent, EntitlementSource, LoadedEpisode,
  PurchaseIdentity, Wallet, Environment, Store, Keeps, Keeps-modify, keeps_rules, modify, fresh,
}
use shortform_streaming.Accounts.{
  VerifiedToken, lock_current_profile, deletion_record, delete_profiles_of, delete_profile,
  request_account_deletion, process_account_deletion,
}
use shortform_streaming.Wallet.Ledger.{or_new_wallet, get_or_create_wallet, create_cancellation}
use shortform_streaming.Wallet.Unlocks.{
  UnlockRequest, Resolution, create_entitlement, resolution_of, resolve_unlock,
}
use shortform_streaming.Commerce.Identities.{or_new_identity, purchase_identity}
use shortform_streaming.Advertising.Intents.{Clocks, new_intent, intent_for, create_reward_intent}
use shortform_streaming.Advertising.Rewards.{
  VerifiedReward, reward_entitlement, grant_intent, grant_or_replay, grant_verified_reward,
}

-- The ledger's rows are `es`.
abbrev pub HasEntries : List CoinLedgerEntry → Store → Type 0
HasEntries es db = db.entries ≡ es

module _ (es : List CoinLedgerEntry) where
  Keeps-other :
      (f : Store → Store)
      → ((s : Store) → (f s).entries ≡ s.entries)
      → Keeps (HasEntries es) (modify f)
  Keeps-other f e = Keeps-modify f (λ s h. e s ∙ h)

  fresh-HasEntries : Keeps (HasEntries es) fresh
  unfolding fresh
  fresh-HasEntries = record { at = λ s h. h }

  lock-HasEntries :
      (env : Environment) (p : UserProfile) → Keeps (HasEntries es) (lock_current_profile env p)
  unfolding lock_current_profile
  lock-HasEntries env p = search keeps_rules

  ruleset other_tables = (keeps_rules, fresh-HasEntries, lock-HasEntries, Keeps-other, refl)

  or_new_wallet-HasEntries :
      (p : UserProfile) (o : Option Wallet) → Keeps (HasEntries es) (or_new_wallet p o)
  unfolding or_new_wallet
  or_new_wallet-HasEntries p (some w) = search keeps_rules
  or_new_wallet-HasEntries p none = search other_tables depth 20

  wallet-HasEntries : (p : UserProfile) → Keeps (HasEntries es) (get_or_create_wallet p)
  unfolding get_or_create_wallet
  wallet-HasEntries p = search (other_tables, or_new_wallet-HasEntries) depth 20

  resolution-HasEntries :
      (w : Wallet) (r : UnlockRequest) (o : Option Resolution)
      → Keeps (HasEntries es) (resolution_of w r o)
  unfolding resolution_of create_cancellation
  resolution-HasEntries w r (some x) = search other_tables
  resolution-HasEntries w r none = search other_tables depth 20

  identity-HasEntries :
      (w : Wallet) (o : Option PurchaseIdentity) → Keeps (HasEntries es) (or_new_identity w o)
  unfolding or_new_identity
  identity-HasEntries w (some i) = search other_tables
  identity-HasEntries w none = search other_tables depth 20

  entitlement-HasEntries :
      (p : UserProfile) (e : LoadedEpisode) (o : Option EntitlementSource)
      → Keeps (HasEntries es) (reward_entitlement p e o)
  unfolding reward_entitlement create_entitlement
  entitlement-HasEntries p e (some source) = search other_tables
  entitlement-HasEntries p e none = search other_tables depth 20

  delete_profiles_of-rows :
      (uid : ℕ) (db : Store) → (delete_profiles_of uid db).entries ≡ db.entries
  unfolding delete_profiles_of delete_profile
  delete_profiles_of-rows uid db = ground arith

  deletion-HasEntries :
      (env : Environment) (uid : ℕ) (o : Option AccountDeletion)
      → Keeps (HasEntries es) (deletion_record env uid o)
  unfolding deletion_record
  deletion-HasEntries env uid (some d) = search other_tables
  deletion-HasEntries env uid none = search other_tables depth 20

  ruleset other_services = (
    other_tables, wallet-HasEntries, resolution-HasEntries, identity-HasEntries,
    entitlement-HasEntries, delete_profiles_of-rows, deletion-HasEntries,
  )

  module _ (env : Environment) where
    pub resolve-HasEntries :
        (p : UserProfile) (r : UnlockRequest) → Keeps (HasEntries es) (resolve_unlock env p r)
    unfolding resolve_unlock
    resolve-HasEntries p r = search other_services depth 30

    pub purchase_identity-HasEntries :
        (p : UserProfile) → Keeps (HasEntries es) (purchase_identity env p)
    unfolding purchase_identity
    purchase_identity-HasEntries p = search other_services depth 30

    replay-HasEntries :
        (now later : ℕ) (c : VerifiedReward) (p : UserProfile) (e : LoadedEpisode)
        (i : RewardIntent) (o : Option ℕ)
        → Keeps (HasEntries es) (grant_or_replay env now later c p e i o)
    unfolding grant_or_replay grant_intent
    replay-HasEntries now later c p e i (some t) = search other_services depth 20
    replay-HasEntries now later c p e i none = search other_services depth 40

    pub grant-HasEntries :
        (now later : ℕ) (c : VerifiedReward)
        → Keeps (HasEntries es) (grant_verified_reward env now later c)
    unfolding grant_verified_reward
    grant-HasEntries now later c = search (other_services, replay-HasEntries) depth 40

    pub request_deletion-HasEntries :
        (now : ℕ) (token : VerifiedToken)
        → Keeps (HasEntries es) (request_account_deletion env now token)
    unfolding request_account_deletion
    request_deletion-HasEntries now token = search other_services depth 40

  pub process_deletion-HasEntries :
      (provider_ok : Bool) (now public_id : ℕ)
      → Keeps (HasEntries es) (process_account_deletion provider_ok now public_id)
  unfolding process_account_deletion
  process_deletion-HasEntries provider_ok now public_id = search other_services depth 30

  module _ (env : Environment) where
    intent_for-HasEntries :
        (clocks : Clocks) (p : UserProfile) (episode request : ℕ) (expected : Option ℕ)
        (o : Option RewardIntent)
        → Keeps (HasEntries es) (intent_for env clocks p episode request expected o)
    unfolding intent_for new_intent
    intent_for-HasEntries clocks p episode request expected (some i) =
        search other_services depth 20
    intent_for-HasEntries clocks p episode request expected none = search other_services depth 40

    pub create_intent-HasEntries :
        (clocks : Clocks) (p : UserProfile) (episode request : ℕ) (expected : Option ℕ)
        → Keeps (HasEntries es) (create_reward_intent env clocks p episode request expected)
    unfolding create_reward_intent
    create_intent-HasEntries clocks p episode request expected =
        search (other_services, intent_for-HasEntries) depth 30
