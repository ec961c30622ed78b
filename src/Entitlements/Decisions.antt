-- ===== src/Entitlements/Decisions.antt =====
-- The decision and the offers of backend/apps/entitlements/policy.py.
use shortform_streaming.Prelude.{
  ℕ, ◌≡◌, ◌∙◌, sym, Bool, true, false, not, ◌&&◌, ◌||◌, Option, none, some, List, any, arith,
  is_some, ==_refl, Option-cases, inl, inr,
}
use shortform_streaming.Model.{UserProfile, LoadedEpisode, EntitlementSource, Environment, Store}
use shortform_streaming.Catalog.Episodes.{episode_is_eligible}
use shortform_streaming.Entitlements.Policy.{
  AuthorizeAccess, ineligible, grant, lock, LockReason, entitlement_source, episode_is_free,
  without_entitlement, ResolvedEpisodePolicy, evaluate_authorize_access, resolve_episode_policy,
  coin_spending_enabled, allows_coin,
}
use shortform_streaming.Entitlements.Offers.{
  OfferMethodType, OfferMethod, offers_locked, locked_methods, offers_of, evaluate_episode_offers,
}
use shortform_streaming.Wallet.Unlocks.{UnlockRequest, is_ineligible, is_grant, offer_holds}

abbrev pub is_entitled : Store → Option UserProfile → ℕ → Bool
is_entitled db none episode = false
is_entitled db (some p) episode = is_some (entitlement_source db p episode)

-- Access is refused as not found exactly where the episode is not eligible; of an eligible episode
-- it is granted exactly to an entitled profile, or to anybody where the episode is free.
pub access_decision :
    (env : Environment) (db : Store) (now : ℕ) (e : LoadedEpisode) (profile : Option UserProfile)
    → (is_ineligible (evaluate_authorize_access env db now e profile)
        ≡ not (episode_is_eligible env.settings db now e))
      × (is_grant (evaluate_authorize_access env db now e profile) ≡ (
          episode_is_eligible env.settings db now e
          && (is_entitled db profile e.pk || episode_is_free env e)))
unfolding evaluate_authorize_access without_entitlement
access_decision env db now e none = ground arith
access_decision env db now e (some p) = elim (Option-cases (entitlement_source db p e.pk)) [
  | inl unknown ↦ ground arith
  | inr (EntitlementSource.staff, known) ↦ ground arith
  | inr (EntitlementSource.rewarded_ad, known) ↦ ground arith
  | inr (EntitlementSource.coin, known) ↦ ground arith
]

abbrev pub is_coin_method : OfferMethod → Bool
is_coin_method m = elim m.type [ OfferMethodType.coin ↦ true | _ ↦ false ]

locked_offers :
    (env : Environment) (e : LoadedEpisode) (profile : Option UserProfile)
    (decision : AuthorizeAccess) (reasons : List LockReason) (methods : List OfferMethod)
    (version : ℕ) (price : Option ℕ)
    → offers_of env (resolve_episode_policy env e) profile decision
      ≡ offers_locked reasons methods version price
    → (methods ≡ locked_methods env (resolve_episode_policy env e) profile)
      × (version ≡ (resolve_episode_policy env e).version)
      × (price ≡ (resolve_episode_policy env e).coin_price)
unfolding offers_of
locked_offers env e profile ineligible reasons methods version price h = absurd (cc h)
locked_offers env e profile (grant source) reasons methods version price h = absurd (cc h)
locked_offers env e profile (lock rs) reasons methods version price h =
    (ground arith, ground arith, ground arith)

coin_listed :
    (env : Environment) (policy : ResolvedEpisodePolicy) (profile : Option UserProfile)
    → any is_coin_method (locked_methods env policy profile) ≡ true
    → (coin_spending_enabled env ≡ true)
      × (is_some profile ≡ true)
      × (allows_coin policy.effective_mode ≡ true)
unfolding locked_methods
coin_listed env policy profile h = ground arith

-- An offer to pay with coins holds: where the offers of an episode list the coin method, coin
-- spending is enabled, a profile asks, and an unlock request for the price and the version that
-- were shown passes the check of the offer.
pub coin_offer_holds :
    (env : Environment) (db : Store) (now : ℕ) (e : LoadedEpisode) (profile : Option UserProfile)
    (reasons : List LockReason) (methods : List OfferMethod) (version : ℕ) (price : Option ℕ)
    (r : UnlockRequest)
    → evaluate_episode_offers env db now e profile ≡ offers_locked reasons methods version price
    → any is_coin_method methods ≡ true
    → r.expected_policy_version ≡ version
    → price ≡ some r.expected_coin_price
    → (coin_spending_enabled env ≡ true)
      × (is_some profile ≡ true)
      × ((resolve_episode_policy env e).coin_price ≡ some r.expected_coin_price)
      × (offer_holds (resolve_episode_policy env e) r.expected_coin_price r ≡ true)
unfolding evaluate_episode_offers offer_holds
coin_offer_holds env db now e profile reasons methods version price r h c hv hp =
    let (em, ev, ep) = locked_offers env e profile _ reasons methods version price h in
    let (enabled, asks, coin) =
      coin_listed env (resolve_episode_policy env e) profile (rw (← em) c) in
    (
      enabled,
      asks,
      sym ep ∙ hp,
      ground (arith, coin, hv, ev, ==_refl r.expected_coin_price, ==_refl version),
    )
