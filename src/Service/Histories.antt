-- ===== src/Service/Histories.antt =====
-- The balances along a history of calls: the services of backend/apps/advertising and
-- backend/apps/accounts, and the steps together.
use shortform_streaming.Prelude.{ℕ, ◌≡◌, Bool, Option, none, some, arith}
use shortform_streaming.Model.{
  UserProfile, AccountDeletion, RewardIntent, EntitlementSource, LoadedEpisode, Environment, Store,
  Action, ok, Keeps,
}
use shortform_streaming.Accounts.{
  VerifiedToken, deletion_record, delete_profiles_of, delete_profile, request_account_deletion,
  process_account_deletion,
}
use shortform_streaming.Wallet.Balance.{
  IsLedgerSafe, wallet_rules, unlock_episode-IsLedgerSafe, resolve_unlock-IsLedgerSafe,
}
use shortform_streaming.Commerce.Safety.{purchase_identity-IsLedgerSafe, fulfill-IsLedgerSafe}
use shortform_streaming.Advertising.Intents.{Clocks, new_intent, intent_for, create_reward_intent}
use shortform_streaming.Advertising.Rewards.{
  VerifiedReward, reward_entitlement, grant_intent, grant_or_replay, grant_verified_reward,
}
use shortform_streaming.Service.{
  Step, Reach, start, next, unlocking, resolving, identifying, fulfilling, intending, granting,
  deleting, processing,
}

reward_entitlement-IsLedgerSafe :
    (p : UserProfile) (e : LoadedEpisode) (o : Option EntitlementSource)
    → Keeps IsLedgerSafe (reward_entitlement p e o)
unfolding reward_entitlement
reward_entitlement-IsLedgerSafe p e (some source) = search wallet_rules
reward_entitlement-IsLedgerSafe p e none = search wallet_rules

module _ (env : Environment) where
  grant_or_replay-IsLedgerSafe :
      (now later : ℕ) (c : VerifiedReward) (p : UserProfile) (e : LoadedEpisode) (i : RewardIntent)
      (o : Option ℕ)
      → Keeps IsLedgerSafe (grant_or_replay env now later c p e i o)
  unfolding grant_or_replay grant_intent
  grant_or_replay-IsLedgerSafe now later c p e i (some t) = search wallet_rules
  grant_or_replay-IsLedgerSafe now later c p e i none =
      search (wallet_rules, reward_entitlement-IsLedgerSafe) depth 30

  grant-IsLedgerSafe :
      (now later : ℕ) (c : VerifiedReward)
      → Keeps IsLedgerSafe (grant_verified_reward env now later c)
  unfolding grant_verified_reward
  grant-IsLedgerSafe now later c = search (wallet_rules, grant_or_replay-IsLedgerSafe) depth 40

  intent_for-IsLedgerSafe :
      (clocks : Clocks) (p : UserProfile) (episode request : ℕ) (expected : Option ℕ)
      (o : Option RewardIntent)
      → Keeps IsLedgerSafe (intent_for env clocks p episode request expected o)
  unfolding intent_for new_intent
  intent_for-IsLedgerSafe clocks p episode request expected (some i) = search wallet_rules depth 20
  intent_for-IsLedgerSafe clocks p episode request expected none = search wallet_rules depth 40

  create_intent-IsLedgerSafe :
      (clocks : Clocks) (profile : UserProfile) (episode request : ℕ) (expected : Option ℕ)
      → Keeps IsLedgerSafe (create_reward_intent env clocks profile episode request expected)
  unfolding create_reward_intent
  create_intent-IsLedgerSafe clocks profile episode request expected =
      search (wallet_rules, intent_for-IsLedgerSafe) depth 20

  delete_profiles_of-entries :
      (uid : ℕ) (db : Store) → (delete_profiles_of uid db).entries ≡ db.entries
  unfolding delete_profiles_of delete_profile
  delete_profiles_of-entries uid db = ground arith

  deletion_record-IsLedgerSafe :
      (uid : ℕ) (o : Option AccountDeletion) → Keeps IsLedgerSafe (deletion_record env uid o)
  unfolding deletion_record
  deletion_record-IsLedgerSafe uid (some d) = search wallet_rules
  deletion_record-IsLedgerSafe uid none = search wallet_rules depth 20

  request_deletion-IsLedgerSafe :
      (now : ℕ) (token : VerifiedToken)
      → Keeps IsLedgerSafe (request_account_deletion env now token)
  unfolding request_account_deletion
  request_deletion-IsLedgerSafe now token =
      search (wallet_rules, deletion_record-IsLedgerSafe, delete_profiles_of-entries) depth 30

process_deletion-IsLedgerSafe :
    (provider_ok : Bool) (now public_id : ℕ)
    → Keeps IsLedgerSafe (process_account_deletion provider_ok now public_id)
unfolding process_account_deletion
process_deletion-IsLedgerSafe provider_ok now public_id = search wallet_rules depth 30

committed :
    {A : Type 0} {m : Action A} {a : A} {db db' : Store}
    → Keeps IsLedgerSafe m
    → IsLedgerSafe db
    → m db ≡ ok a db'
    → IsLedgerSafe db'
committed {m = m} {db = db} k h e = rw e at (k.at db h)

Step-IsLedgerSafe :
    {env : Environment} {db db' : Store} → Step env db db' → IsLedgerSafe db → IsLedgerSafe db'
Step-IsLedgerSafe {env = env} (unlocking now later p r x e) h =
    committed (unlock_episode-IsLedgerSafe env now later p r) h e
Step-IsLedgerSafe {env = env} (resolving p r x e) h =
    committed (resolve_unlock-IsLedgerSafe env p r) h e
Step-IsLedgerSafe {env = env} (identifying p x e) h =
    committed (purchase_identity-IsLedgerSafe env p) h e
Step-IsLedgerSafe {env = env} (fulfilling now event x e) h =
    committed (fulfill-IsLedgerSafe env now event) h e
Step-IsLedgerSafe {env = env} (intending clocks p ep r v x e) h =
    committed (create_intent-IsLedgerSafe env clocks p ep r v) h e
Step-IsLedgerSafe {env = env} (granting now later c e) h =
    committed (grant-IsLedgerSafe env now later c) h e
Step-IsLedgerSafe {env = env} (deleting now token x e) h =
    committed (request_deletion-IsLedgerSafe env now token) h e
Step-IsLedgerSafe (processing provider_ok now id x e) h =
    committed (process_deletion-IsLedgerSafe provider_ok now id) h e

-- Whatever calls commit, in whatever order, starting from balances in range: every balance stays
-- between zero and 9007199254740991.
pub Reach-IsLedgerSafe :
    (env : Environment) (db db' : Store) → Reach env db db' → IsLedgerSafe db → IsLedgerSafe db'
Reach-IsLedgerSafe env db _ start h = h
Reach-IsLedgerSafe env db db' (next {mid = mid} history step) h =
    Step-IsLedgerSafe step (Reach-IsLedgerSafe env db mid history h)
