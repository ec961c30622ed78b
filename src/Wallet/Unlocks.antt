-- ===== src/Wallet/Unlocks.antt =====
-- backend/apps/wallet/services.py. `now` is the clock at the first eligibility check, `later` the
-- clock once the wallet is locked.
use shortform_streaming.Prelude.{
  ℕ, Bool, true, false, not, ◌&&◌, ◌||◌, Option, none, some, ◌∷◌, ◌==◌, is_some,
}
use shortform_streaming.Prelude.Int.{ℤ, pos, neg_ℕ, ltb_ℤ}
use shortform_streaming.Model.{
  UserProfile, Wallet, Kind, CoinUnlock, CoinUnlockCancellation, LoadedEpisode, EpisodeEntitlement,
  EntitlementSource, Environment, Store, Error, Action, gets, modify, or_raise, raise_if, fresh,
  pure, ◌>>=◌, ◌>>◌,
}
use shortform_streaming.Catalog.Episodes.{episode_is_eligible, lock_episode_by_public_id}
use shortform_streaming.Accounts.{lock_current_profile}
use shortform_streaming.Entitlements.Policy.{
  AuthorizeAccess, ineligible, grant, allows_coin, ResolvedEpisodePolicy, resolve_episode_policy,
  evaluate_authorize_access, coin_spending_enabled, entitlement_source,
}
use shortform_streaming.Wallet.Ledger.{
  wallet_balance, create_entry, create_unlock, create_cancellation, find_unlock, find_cancellation,
  wallet_of, get_or_create_wallet,
}

-- `read_wallet`
unfoldable pub read_wallet : Environment → UserProfile → Action ℤ
unfolding wallet_balance
read_wallet env profile = do
  p ← lock_current_profile env profile
  gets (λ db. elim (wallet_of p db) [ none ↦ pos 0 | some w ↦ wallet_balance db w ])

-- What the client asks for: the episode, the idempotency key and the expected offer.
pub record UnlockRequest : Type 0 where
  pub episode_id : ℕ
  pub request_id : ℕ
  pub expected_policy_version : ℕ
  pub expected_coin_price : ℕ

-- A stored request and a new one under its key ask for different things.
unfoldable pub differs : ℕ → ℕ → ℕ → UnlockRequest → Bool
differs episode version price r =
    not (episode == r.episode_id)
    || not (version == r.expected_policy_version)
    || not (price == r.expected_coin_price)

-- The rows of a profile under a key: `wallet__user_profile=profile, request_id=…`.
unfoldable pub profile_unlock : UserProfile → ℕ → Store → Option CoinUnlock
profile_unlock p request db = elim (wallet_of p db) [
  | none ↦ none
  | some w ↦ find_unlock w.pk request db
]

unfoldable pub profile_cancellation : UserProfile → ℕ → Store → Option CoinUnlockCancellation
profile_cancellation p request db = elim (wallet_of p db) [
  | none ↦ none
  | some w ↦ find_cancellation w.pk request db
]

abbrev pub is_ineligible : AuthorizeAccess → Bool
is_ineligible ineligible = true
is_ineligible _ = false

abbrev pub is_grant : AuthorizeAccess → Bool
is_grant (grant source) = true
is_grant _ = false

-- The offer that the client saw is the one in force, with the price `price`.
unfoldable pub offer_holds : ResolvedEpisodePolicy → ℕ → UnlockRequest → Bool
offer_holds policy price r =
    allows_coin policy.effective_mode
    && price == r.expected_coin_price
    && policy.version == r.expected_policy_version

-- `EpisodeEntitlement.objects.create`; a profile has one entitlement to an episode.
unfoldable pub create_entitlement : UserProfile → ℕ → EntitlementSource → Action EpisodeEntitlement
create_entitlement p episode source = do
  known ← gets (λ db. entitlement_source db p episode)
  raise_if (is_some known) Error.integrity_error
  let x : EpisodeEntitlement = record { user_profile = p.pk; episode = episode; source = source }
  modify (λ db. record db { entitlements = x ∷ db.entitlements })
  pure x

receipt_of : Wallet → UnlockRequest → ℕ → Option ℕ → CoinUnlock
receipt_of w r charged entry = record {
  wallet = w.pk;
  request_id = r.request_id;
  episode_public_id = r.episode_id;
  policy_version = r.expected_policy_version;
  expected_coin_price = r.expected_coin_price;
  charged_coins = charged;
  ledger_entry = entry;
}

-- The debit and the entitlement of an unlock that is paid for: the coins charged and the entry.
unfoldable pub charge :
    Environment → ℕ → UserProfile → Wallet → LoadedEpisode → UnlockRequest → Action (ℕ × ℕ)
unfolding offer_holds create_entitlement
charge env later p w e r = do
  let policy = resolve_episode_policy env e
  price ← or_raise policy.coin_price Error.coin_unavailable
  raise_if (not (offer_holds policy price r)) Error.coin_unavailable
  b ← gets (λ db. wallet_balance db w)
  raise_if (ltb_ℤ b (pos price)) Error.coin_unavailable
  reference ← fresh
  entry ← create_entry later w reference Kind.unlock (neg_ℕ price)
  granted ← create_entitlement p e.pk EntitlementSource.coin
  pure (price, entry.pk)

-- The receipt of a request that has none yet: nothing is charged for what is granted already.
unfoldable pub new_receipt :
    Environment
    → ℕ
    → UserProfile
    → Wallet
    → LoadedEpisode
    → UnlockRequest
    → AuthorizeAccess
    → Action CoinUnlock
unfolding charge receipt_of
new_receipt env later p w e r (grant source) = create_unlock (receipt_of w r 0 none)
new_receipt env later p w e r _ = do
  paid ← charge env later p w e r
  create_unlock (receipt_of w r paid.0 (some paid.1))

-- What follows once the wallet is locked: a receipt is repeated only to who may still watch.
unfoldable pub settle :
    Environment
    → ℕ
    → UserProfile
    → Wallet
    → LoadedEpisode
    → UnlockRequest
    → AuthorizeAccess
    → Option CoinUnlock
    → Action CoinUnlock
unfolding new_receipt
settle env later p w e r decision (some u) = do
  raise_if (not (is_grant decision)) Error.coin_unavailable
  pure u
settle env later p w e r decision none = new_receipt env later p w e r decision

abbrev pub existing_differs : UnlockRequest → Option CoinUnlock → Bool
existing_differs r none = false
existing_differs r (some u) = differs u.episode_public_id u.policy_version u.expected_coin_price r

unfoldable pub unlock_episode :
    Environment → ℕ → ℕ → UserProfile → UnlockRequest → Action (CoinUnlock × ℤ)
unfolding settle
unlock_episode env now later profile r = do
  p ← lock_current_profile env profile
  raise_if (not (coin_spending_enabled env)) Error.coin_unavailable
  cancelled ← gets (profile_cancellation p r.request_id)
  raise_if (is_some cancelled) Error.coin_unavailable
  existing ← gets (profile_unlock p r.request_id)
  raise_if (existing_differs r existing) Error.coin_unavailable
  e ← or_raise (← gets (λ db. lock_episode_by_public_id db r.episode_id)) Error.not_found
  eligible ← gets (λ db. episode_is_eligible env.settings db now e)
  raise_if (not eligible) Error.not_found
  w ← get_or_create_wallet p
  decision ← gets (λ db. evaluate_authorize_access env db later e (some p))
  raise_if (is_ineligible decision) Error.not_found
  receipt ← settle env later p w e r decision existing
  b ← gets (λ db. wallet_balance db w)
  pure (receipt, b)

-- `CoinUnlock | CoinUnlockCancellation`
pub data Resolution : Type 0 where
  completed : CoinUnlock → Resolution
  cancelled : CoinUnlockCancellation → Resolution

abbrev resolution_differs : UnlockRequest → Option Resolution → Bool
resolution_differs r none = false
resolution_differs r (some (completed u)) =
    differs u.episode_public_id u.policy_version u.expected_coin_price r
resolution_differs r (some (cancelled c)) =
    differs c.episode_public_id c.policy_version c.expected_coin_price r

unfoldable pub find_resolution : ℕ → ℕ → Store → Option Resolution
find_resolution w request db = elim (find_unlock w request db) [
  | some u ↦ some (completed u)
  | none ↦ elim (find_cancellation w request db) [ some c ↦ some (cancelled c) | none ↦ none ]
]

-- The committed history of the request, or its cancellation from now on.
unfoldable pub resolution_of : Wallet → UnlockRequest → Option Resolution → Action Resolution
resolution_of w r (some x) = pure x
resolution_of w r none = do
  c ← create_cancellation (record {
    wallet = w.pk;
    request_id = r.request_id;
    episode_public_id = r.episode_id;
    policy_version = r.expected_policy_version;
    expected_coin_price = r.expected_coin_price;
  })
  pure (cancelled c)

unfoldable pub resolve_unlock : Environment → UserProfile → UnlockRequest → Action (Resolution × ℤ)
unfolding find_resolution resolution_of
resolve_unlock env profile r = do
  p ← lock_current_profile env profile
  raise_if (not (coin_spending_enabled env)) Error.coin_unavailable
  w ← get_or_create_wallet p
  existing ← gets (find_resolution w.pk r.request_id)
  raise_if (resolution_differs r existing) Error.coin_unavailable
  resolution ← resolution_of w r existing
  b ← gets (λ db. wallet_balance db w)
  pure (resolution, b)
