-- ===== src/Advertising/Replays.antt =====
-- The same callback again, in backend/apps/advertising/services.py.
use shortform_streaming.Prelude.{
  ℕ, ◌≡◌, ◌∙◌, refl, Bool, true, some, List, [], ◌∷◌, map, arith, inl, inr, find, subst, ◌==◌,
  ==_refl, Option-cases,
}
use shortform_streaming.Model.{
  UserProfile, RewardIntent, LoadedEpisode, Environment, Store, ok, ◌>>=◌,
}
use shortform_streaming.Catalog.Episodes.{lock_episode_for_access}
use shortform_streaming.Accounts.{current_profile}
use shortform_streaming.Wallet.Locking.{same_current}
use shortform_streaming.Entitlements.Policy.{ads_enabled}
use shortform_streaming.Advertising.Intents.{same_unit, find_intent}
use shortform_streaming.Advertising.Rewards.{
  VerifiedReward, is_replay, grant_row, grant_or_replay, grant_verified_reward,
}
use shortform_streaming.Advertising.Grants.{
  GrantRun, grant-GrantRun, IsGranted, grant_intent-IsGranted,
}

-- A search that a change of the rows does not touch.
find-map :
    (f : RewardIntent → Bool) (g : RewardIntent → RewardIntent) (xs : List RewardIntent)
    (x : RewardIntent)
    → ((y : RewardIntent) → f (g y) ≡ f y)
    → find f xs ≡ some x
    → find f (map g xs) ≡ some (g x)
find-map f g [] x same h = absurd (cc h)
find-map f g (y ∷ ys) x same h = ground (arith, same y, find-map f g ys x same)

custom_data-grant_row :
    (pk now : ℕ) (c : VerifiedReward) (k : ℕ) (y : RewardIntent)
    → ((grant_row pk c now y).custom_data == k) ≡ (y.custom_data == k)
unfolding grant_row
custom_data-grant_row pk now c k y = ground arith

pk-grant_row :
    (pk now : ℕ) (c : VerifiedReward) (k : ℕ) (y : RewardIntent)
    → ((grant_row pk c now y).pk == k) ≡ (y.pk == k)
unfolding grant_row
pk-grant_row pk now c k y = ground arith

find_intent_lem : (pk : ℕ) (db : Store) → find (λ i. i.pk == pk) db.intents ≡ find_intent pk db
unfolding find_intent
find_intent_lem pk db = refl

replays :
    (env : Environment) (now later : ℕ) (c : VerifiedReward) (db : Store) (profile p : UserProfile)
    (e : LoadedEpisode) (initial i : RewardIntent)
    → ads_enabled env.rewarded_ads_mode ≡ true
    → find (λ x. x.custom_data == c.custom_data) db.intents ≡ some initial
    → find (λ x. x.pk == initial.user_profile) db.profiles ≡ some profile
    → current_profile env profile db ≡ some p
    → lock_episode_for_access db initial.episode ≡ some e
    → find_intent initial.pk db ≡ some i
    → (i.ssv_user_id == c.user_id) ≡ true
    → (c.ad_unit == i.ad_unit_id.last_part) ≡ true
    → same_unit i.ad_unit_id env.rewarded_ads_unit_id ≡ true
    → (t : ℕ) → i.granted_at ≡ some t
    → is_replay i c ≡ true
    → grant_verified_reward env now later c db ≡ ok tt db
unfolding grant_verified_reward grant_or_replay ◌>>=◌
replays env now later c db profile p e initial i a b d f g h k l m t o q = ground arith

module _ (env : Environment) (now later now' later' : ℕ) (c : VerifiedReward) (db db' : Store)
    (h : grant_verified_reward env now later c db ≡ ok tt db') where
  again_after_grant :
      (run : GrantRun env now later c db db')
      → IsGranted env now later c run.p run.e run.i db db'
      → grant_verified_reward env now' later' c db' ≡ ok tt db'
  again_after_grant run g =
      let first =
        find-map _ (grant_row run.i.pk c now) db.intents run.initial
          (custom_data-grant_row run.i.pk now c c.custom_data) run.bound in
      let second =
        find-map _ (grant_row run.i.pk c now) db.intents run.i
          (pk-grant_row run.i.pk now c run.initial.pk)
          (find_intent_lem run.initial.pk db ∙ run.reread) in
      replays env now' later' c db' run.profile run.p run.e (grant_row run.i.pk c now run.initial)
        (grant_row run.i.pk c now run.i) run.enabled (rw g.marked first)
        (rw g.same_profiles (unfold grant_row in ground (arith, run.owner)))
        (same_current env run.profile db db' g.same_profiles g.same_deletions ∙ run.current)
        (unfold lock_episode_for_access grant_row in
          rw (g.same_series, g.same_episodes) (ground (arith, run.locked)))
        (unfold find_intent grant_row in rw g.marked (ground (arith, second)))
        (unfold grant_row in ground (arith, run.same_user))
        (unfold grant_row in ground (arith, run.same_part))
        (unfold grant_row in ground (arith, run.same_ad_unit)) now
        (unfold grant_row in ground (arith, ==_refl run.i.pk))
        (unfold grant_row in
          ground (arith, ==_refl run.i.pk, ==_refl c.transaction_id, ==_refl c.timestamp))

  again_after_replay :
      (run : GrantRun env now later c db db') (t : ℕ)
      → run.i.granted_at ≡ some t
      → grant_verified_reward env now' later' c db' ≡ ok tt db'
  unfolding grant_or_replay ◌>>=◌
  again_after_replay run t known =
      let step : grant_or_replay env now later c run.p run.e run.i (some t) db ≡ ok tt db' =
        subst (λ o. grant_or_replay env now later c run.p run.e run.i o db ≡ ok tt db') known
          run.granted in
      let same : db ≡ db' = ground arith in
      rw (← same) (
        replays env now' later' c db run.profile run.p run.e run.initial run.i run.enabled run.bound
          run.owner run.current run.locked run.reread run.same_user run.same_part run.same_ad_unit t
          known (ground arith))

  -- A callback that was accepted is accepted again in the store it left, at any clocks, and changes
  -- nothing.
  pub grant_replay : grant_verified_reward env now' later' c db' ≡ ok tt db'
  unfolding grant_or_replay
  grant_replay =
      let run = grant-GrantRun env now later c db db' h in
      elim (Option-cases run.i.granted_at) [
        | inr (t, known) ↦ again_after_replay run t known
        | inl unmarked ↦ again_after_grant run (
            grant_intent-IsGranted env now later c run.p run.e run.i db db' unmarked (
              subst (λ o. grant_or_replay env now later c run.p run.e run.i o db ≡ ok tt db')
                unmarked run.granted))
      ]
