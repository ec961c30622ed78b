-- ===== src/Playback/Takedowns.antt =====
-- The effect of `takedown_asset` of backend/apps/playback/ingest.py.
use shortform_streaming.Prelude.{
  ℕ, ◌≡◌, refl, Bool, true, false, some, none, arith, ◌⊎◌, inl, inr, is_some, find, ◌==◌,
  Option-cases, ◌≢◌, ◌∙◌, [], ◌∷◌, List, map, if◌then◌else◌, ==_refl, find_holds,
}
use shortform_streaming.Model.{MediaAsset, removed, Store, ok, ◌>>=◌, Outcome-cases}
use shortform_streaming.Playback.Assets.{allowed, transition_to, put_asset}
use shortform_streaming.Playback.Takedown.{
  TakedownAnswer, takedown_failure, take_down, takedown_asset,
}

find_put :
    (r : MediaAsset) (pk : ℕ)
    → r.pk ≡ pk
    → (xs : List MediaAsset) (a : MediaAsset) → find (λ x. x.pk == pk) xs ≡ some a
    → find (λ x. x.pk == pk) (map (λ x. if x.pk == r.pk then r else x) xs) ≡ some r
find_put r pk same [] a found = absurd (cc found)
find_put r pk same (x ∷ xs) a found = ground (arith, same, find_put r pk same xs a, ==_refl pk)

find_put_other :
    (r : MediaAsset) (k : ℕ)
    → k ≢ r.pk
    → (xs : List MediaAsset)
    → find (λ x. x.pk == k) (map (λ x. if x.pk == r.pk then r else x) xs) ≡ find (λ x. x.pk == k) xs
find_put_other r k other [] = refl
find_put_other r k other (x ∷ xs) = ground (arith, other, find_put_other r k other xs)

module _ (answer : TakedownAnswer) (pk : ℕ) (a r : MediaAsset) (error : Bool) (db db' : Store)
    (found : find (λ x. x.pk == pk) db.assets ≡ some a)
    (h : takedown_asset answer pk db ≡ ok (r, error) db') where
  put_of : db' ≡ put_asset r db
  unfolding takedown_asset take_down transition_to ◌>>=◌
  put_of = ground arith

  key_of : r.pk ≡ pk
  unfolding takedown_asset take_down transition_to ◌>>=◌
  key_of =
      let same : a.pk ≡ pk = ground (arith, find_holds (λ x. x.pk == pk) db.assets a found) in
      ground (arith, same)

-- A takedown marks the asset removed exactly when the provider has no copy left: there was no id,
-- the provider deleted it or did not find it. Else VideoProviderError follows and the row keeps its
-- state and its id, for another try. Either way the row that is returned is the one that the
-- database holds afterwards, and every other row is what it was.
pub takedown_effect :
    (answer : TakedownAnswer) (pk : ℕ) (a r : MediaAsset) (error : Bool) (db db' : Store)
    → find (λ x. x.pk == pk) db.assets ≡ some a
    → takedown_asset answer pk db ≡ ok (r, error) db'
    → (find (λ x. x.pk == pk) db'.assets ≡ some r)
      × ((k : ℕ) → k ≢ pk → find (λ x. x.pk == k) db'.assets ≡ find (λ x. x.pk == k) db.assets)
      × (((error ≡ false)
            × (takedown_failure a.provider_asset_id answer ≡ none)
            × (r.state ≡ removed))
          ⊎ ((error ≡ true)
              × (is_some (takedown_failure a.provider_asset_id answer) ≡ true)
              × (r.state ≡ a.state)
              × (r.provider_asset_id ≡ a.provider_asset_id)))
unfolding takedown_asset take_down transition_to ◌>>=◌
takedown_effect answer pk a r error db db' found h =
    let saved : db' ≡ put_asset r db = put_of answer pk a r error db db' found h in
    let same : r.pk ≡ pk = key_of answer pk a r error db db' found h in
    (
      rw saved (find_put r pk same db.assets a found),
      (λ k other. rw saved (find_put_other r k (λ e. other (e ∙ same)) db.assets)),
      elim (Option-cases (takedown_failure a.provider_asset_id answer)) [
        | inl none_left ↦ inl (ground arith, none_left, ground arith)
        | inr (d, failure) ↦ inr (ground arith, rw failure refl, ground arith, ground arith)
      ],
    )

-- A takedown never meets an illegal transition: on a stored asset it always commits.
pub takedown_commits :
    (answer : TakedownAnswer) (pk : ℕ) (a : MediaAsset) (db : Store)
    → find (λ x. x.pk == pk) db.assets ≡ some a
    → (r : MediaAsset × Bool) × (db' : Store) × (takedown_asset answer pk db ≡ ok r db')
unfolding takedown_asset take_down transition_to allowed ◌>>=◌
takedown_commits answer pk a db found = elim (Outcome-cases (takedown_asset answer pk db)) [
  | inl done ↦ done
  | inr (x, refused) ↦ absurd (ground arith)
]
