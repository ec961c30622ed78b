-- ===== src/Service/Ledger/Refinement.antt =====
-- The services of backend/apps against the coin ledger.
use shortform_streaming.Prelude.{List, [], ◌∷◌, ◌≡◌, refl, ap, inl, inr}
use shortform_streaming.Model.{
  UserProfile, CoinUnlock, LoadedEpisode, Environment, Store, Action, ok, Keeps,
}
use shortform_streaming.Accounts.{request_account_deletion, process_account_deletion}
use shortform_streaming.Wallet.Ledger.{balance}
use shortform_streaming.Wallet.Unlocks.{UnlockRequest, resolve_unlock}
use shortform_streaming.Wallet.Charging.{
  unlock_episode_effect, UnlockEffect, replayed, uncharged, paid,
}
use shortform_streaming.Commerce.Identities.{purchase_identity}
use shortform_streaming.Commerce.Deliveries.{fulfill_effect}
use shortform_streaming.Advertising.Intents.{create_reward_intent}
use shortform_streaming.Advertising.Rewards.{grant_verified_reward}
use shortform_streaming.Service.{
  Step, Reach, start, next, unlocking, resolving, identifying, fulfilling, intending, granting,
  deleting, processing,
}
use shortform_streaming.Service.Ledger.{
  Call, spending, earning, other_call, LedgerStep, keep, credit, debit, LedgerRun, done, then,
}
use shortform_streaming.Service.Ledger.Untouched.{
  HasEntries, resolve-HasEntries, purchase_identity-HasEntries, grant-HasEntries,
  request_deletion-HasEntries, process_deletion-HasEntries, create_intent-HasEntries,
}

-- A service that leaves the rows alone is a step that keeps every balance.
untouched :
    {A : Type 0} (m : Action A) (a : A) (db db' : Store)
    → Keeps (HasEntries db.entries) m
    → m db ≡ ok a db'
    → LedgerStep (λ v. balance v db.entries) (λ v. balance v db'.entries) other_call
untouched m a db db' k e =
    let same : db'.entries ≡ db.entries = rw e at (k.at db refl) in
    keep other_call (λ v. ap (balance v) same)

unlock-step :
    (env : Environment) (p : UserProfile) (e : LoadedEpisode) (r : UnlockRequest) (db db' : Store)
    (u : CoinUnlock)
    → UnlockEffect env p e r db db' u
    → LedgerStep
        (λ v. balance v db.entries)
        (λ v. balance v db'.entries)
        (spending u.wallet u.charged_coins)
unlock-step env p e r db db' u (replayed known may same b c) = keep _ (λ v. ap (balance v) same)
unlock-step env p e r db db' u (uncharged known may h) = keep _ (λ v. ap (balance v) h.same_entries)
unlock-step env p e r db db' u (paid known may h) =
    rw h.charged (debit u.wallet r.expected_coin_price h.covered h.debited h.others)

-- What the ledger sees of a committed call.
abbrev pub call_of : {env : Environment} {db db' : Store} → Step env db db' → Call
call_of (unlocking now later p r x e) = spending x.0.wallet x.0.charged_coins
call_of (fulfilling now event x e) = earning
call_of _ = other_call

abbrev pub calls_of : {env : Environment} {db db' : Store} → Reach env db db' → List Call
calls_of start = []
calls_of (next history step) = call_of step ∷ calls_of history

-- A committed unlock keeps every balance or debits the wallet of its receipt, which covers the coins,
-- by the coins charged; a fulfilled purchase keeps every balance or credits one wallet; any other
-- call keeps every balance.
pub Step-refines :
    (env : Environment) (db db' : Store) (step : Step env db db')
    → LedgerStep (λ v. balance v db.entries) (λ v. balance v db'.entries) (call_of step)
Step-refines env db db' (unlocking now later p r x e) =
    let (q, ep, cur, lock, effect) = unlock_episode_effect env now later p r db db' x.0 x.1 e in
    unlock-step env q ep r db db' x.0 effect
Step-refines env db db' (fulfilling now event x e) =
    elim (fulfill_effect env now event db db' x e) [
      | inl same ↦ keep earning (λ v. ap (balance v) same)
      | inr (e1, mid, res, undecided, c) ↦ credit c.owner.wallet.pk _ c.credited c.others
    ]
Step-refines env db db' (resolving p r x e) =
    untouched (resolve_unlock env p r) x db db' (resolve-HasEntries db.entries env p r) e
Step-refines env db db' (identifying p x e) =
    untouched (purchase_identity env p) x db db' (purchase_identity-HasEntries db.entries env p) e
Step-refines env db db' (intending clocks p ep r v x e) =
    untouched (create_reward_intent env clocks p ep r v) x db db'
      (create_intent-HasEntries db.entries env clocks p ep r v) e
Step-refines env db db' (granting now later c e) =
    untouched (grant_verified_reward env now later c) tt db db'
      (grant-HasEntries db.entries env now later c) e
Step-refines env db db' (deleting now token x e) =
    untouched (request_account_deletion env now token) x db db'
      (request_deletion-HasEntries db.entries env now token) e
Step-refines env db db' (processing provider_ok now id x e) =
    untouched (process_account_deletion provider_ok now id) x db db'
      (process_deletion-HasEntries db.entries provider_ok now id) e

-- A history of committed calls is a run of the abstract ledger with exactly one step for each call:
-- an unlock keeps every balance, or debits only the wallet of the receipt it answers with, which
-- covers the coins, by exactly the coins charged there; a fulfilled purchase keeps every balance or
-- credits only one wallet; every other call keeps every balance.
pub Reach-refines :
    (env : Environment) (db db' : Store) (history : Reach env db db')
    → LedgerRun (λ v. balance v db.entries) (calls_of history) (λ v. balance v db'.entries)
Reach-refines env db _ start = done
Reach-refines env db db' (next {mid = mid} history step) =
    then (Reach-refines env db mid history) (Step-refines env mid db' step)
