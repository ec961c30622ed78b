-- ===== src/Commerce/Offers.antt =====
-- The choice of a pack by `catalog_offers` of backend/apps/commerce/packs.py.
use mathlib.Core.List.{Memᴰ}
use shortform_streaming.Prelude.{
  ℕ, ◌≤◌, ◌≡◌, refl, sym, Bool, true, Option, none, some, List, [], ◌∷◌, ◌⊎◌, arith, inl, inr,
  select, Bool-cases, ==_iff,
}
use shortform_streaming.Model.{CoinPack, Store}
use shortform_streaming.Commerce.Packs.{is_live}
use shortform_streaming.Commerce.Catalog.{comes_first, better, best, live_pack}

-- The better of a pack and the best of the others is one of them, and has at least their coins.
pair_cases :
    (p b : CoinPack) (o : Option CoinPack)
    → some (better p o) ≡ some b
    → ((o ≡ none) × (p ≡ b))
      ⊎ ((r : CoinPack) × (o ≡ some r)
          × ((b ≡ p) ⊎ (b ≡ r))
          × (p.coins ≤ b.coins)
          × (r.coins ≤ b.coins))
unfolding comes_first
pair_cases p b none h = inl (refl, ground arith)
pair_cases p b (some r) h = inr (
  r,
  refl,
  elim (Bool-cases (comes_first p r)) [
    | inl wins ↦ inl (ground arith)
    | inr loses ↦ inr (ground arith)
  ],
  ground arith,
  ground arith,
)

none_empty : (ps : List CoinPack) → best ps ≡ none → (q : CoinPack) → Memᴰ q ps → ⊥
unfolding best
none_empty [] h q m = elim m [ ]
none_empty (p ∷ ps) h q m = absurd (cc h)

best_greatest :
    (ps : List CoinPack) (b : CoinPack)
    → best ps ≡ some b
    → Memᴰ b ps × ((q : CoinPack) → Memᴰ q ps → q.coins ≤ b.coins)
unfolding best
best_greatest [] b h = absurd (cc h)
best_greatest (p ∷ ps) b h = elim (pair_cases p b (best ps) h) [
  | inl (empty, e) ↦ (Memᴰ.head (sym e), λ q m. alone empty e q m)
  | inr (r, known, c, gp, gr) ↦
      let (mr, all_r) = best_greatest ps r known in (member c mr, λ q m. greater r all_r gp gr q m)
]
  where
    alone : best ps ≡ none → p ≡ b → (q : CoinPack) → Memᴰ q (p ∷ ps) → q.coins ≤ b.coins
    alone empty e q (Memᴰ.head f) = rw (f, e) (omega arith)
    alone empty e q (Memᴰ.tail m) = absurd (none_empty ps empty q m)

    member : {r : CoinPack} → (b ≡ p) ⊎ (b ≡ r) → Memᴰ r ps → Memᴰ b (p ∷ ps)
    member (inl e) m = Memᴰ.head e
    member (inr e) m = Memᴰ.tail (rw e m)

    greater :
        (r : CoinPack)
        → ((q : CoinPack) → Memᴰ q ps → q.coins ≤ r.coins)
        → p.coins ≤ b.coins
        → r.coins ≤ b.coins
        → (q : CoinPack) → Memᴰ q (p ∷ ps)
        → q.coins ≤ b.coins
    greater r all_r gp gr q (Memᴰ.head e) = rw e gp
    greater r all_r gp gr q (Memᴰ.tail m) = omega (arith, all_r q m, gr)

select_member :
    (f : CoinPack → Bool) (ps : List CoinPack) (q : CoinPack)
    → Memᴰ q (select f ps)
    → Memᴰ q ps × (f q ≡ true)
select_member f [] q m = elim m [ ]
select_member f (p ∷ ps) q m = elim (Bool-cases (f p)) [
  | inl keeps ↦ kept keeps (λ n. select_member f ps q n) (rw keeps at m)
  | inr drops ↦ let (n, h) = select_member f ps q (rw drops at m) in (Memᴰ.tail n, h)
]
  where
    kept :
        f p ≡ true
        → (Memᴰ q (select f ps) → Memᴰ q ps × (f q ≡ true))
        → Memᴰ q (p ∷ select f ps)
        → Memᴰ q (p ∷ ps) × (f q ≡ true)
    kept h rest (Memᴰ.head e) = (Memᴰ.head e, rw e h)
    kept h rest (Memᴰ.tail n) = let (k, g) = rest n in (Memᴰ.tail k, g)

member_select :
    (f : CoinPack → Bool) (ps : List CoinPack) (q : CoinPack)
    → Memᴰ q ps
    → f q ≡ true
    → Memᴰ q (select f ps)
member_select f [] q m h = elim m [ ]
member_select f (p ∷ ps) q (Memᴰ.head e) h =
    let first : f p ≡ true = rw e at h in rw first (Memᴰ.head e)
member_select f (p ∷ ps) q (Memᴰ.tail m) h = elim (Bool-cases (f p)) [
  | inl keeps ↦ rw keeps (Memᴰ.tail (member_select f ps q m h))
  | inr drops ↦ rw drops (member_select f ps q m h)
]

-- The pack that the catalog shows for a product is a stored, live pack of the product, and holds no
-- fewer coins than any live pack `q` of the product.
pub live_pack_best :
    (db : Store) (now product_id : ℕ) (p q : CoinPack)
    → live_pack db now product_id ≡ some p
    → Memᴰ q db.packs
    → is_live now q ≡ true
    → q.product_id ≡ product_id
    → Memᴰ p db.packs × (is_live now p ≡ true) × (p.product_id ≡ product_id) × (q.coins ≤ p.coins)
unfolding live_pack
live_pack_best db now product_id p q h m live same =
    let (chosen, greatest) = best_greatest _ p h in
    let (stored, fits) = select_member _ db.packs p chosen in
    (
      stored,
      ground (arith, fits),
      (==_iff p.product_id product_id).0 (ground (arith, fits)),
      greatest q (
          member_select _ db.packs q m
            (ground (arith, live, (==_iff q.product_id product_id).1 same))),
    )
