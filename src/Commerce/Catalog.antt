-- ===== src/Commerce/Catalog.antt =====
-- backend/apps/commerce/packs.py, `catalog_offers`. The scope that an offer repeats of its product
-- (store, environment, price source and type) is left out.
use shortform_streaming.Prelude.{
  ℕ, String, Bool, false, ◌&&◌, ◌||◌, Option, none, some, List, [], ◌∷◌, map, if◌then◌else◌, any,
  select, ltb, ◌==◌,
}
use shortform_streaming.Model.{CoinPack, Product, Store}
use shortform_streaming.Commerce.Packs.{is_live, bonus_percent}

pub record Offer : Type 0 where
  pub product_id : ℕ
  pub coins : ℕ
  pub bonus_percent : ℕ
  pub badge : String
  pub highlighted : Bool

-- `_offer`
unfoldable pub offer : CoinPack → Offer
offer p = record {
  product_id = p.product_id;
  coins = p.coins;
  bonus_percent = bonus_percent p;
  badge = p.badge;
  highlighted = p.highlighted;
}

-- `order_by("-coins", "id")`
unfoldable pub comes_first : CoinPack → CoinPack → Bool
comes_first p q = ltb q.coins p.coins || (p.coins == q.coins && ltb p.pk q.pk)

abbrev pub better : CoinPack → Option CoinPack → CoinPack
better p none = p
better p (some q) = if comes_first p q then p else q

unfoldable pub best : List CoinPack → Option CoinPack
unfolding comes_first
best [] = none
best (p ∷ ps) = some (better p (best ps))

-- A row to sort: the place in the list, the coins, and the offer.
pub record Row : Type 0 where
  pub order : ℕ
  pub coins : ℕ
  pub offer : Offer

unfoldable pub live_pack : Store → ℕ → ℕ → Option CoinPack
unfolding best
live_pack db now product_id =
    best (select (λ p. is_live now p && p.product_id == product_id) db.packs)

-- The row of one product; a product whose packs are all retired has none.
unfoldable pub product_row : Store → ℕ → Product → Option Row
unfolding live_pack offer
product_row db now product = elim (live_pack db now product.product_id) [
  | some p ↦ some (record { order = p.sort_order; coins = p.coins; offer = offer p })
  | none ↦
      if any (λ p. p.product_id == product.product_id) db.packs
      then none
      else some (record {
        order = 0;
        coins = product.coins;
        offer = record {
          product_id = product.product_id;
          coins = product.coins;
          bonus_percent = 0;
          badge = "";
          highlighted = false;
        };
      })
]

abbrev with_row : Option Row → List Row → List Row
with_row none rows = rows
with_row (some r) rows = r ∷ rows

unfoldable pub rows_of : Store → ℕ → List Product → List Row
unfolding product_row
rows_of db now [] = []
rows_of db now (p ∷ ps) = with_row (product_row db now p) (rows_of db now ps)

unfoldable pub row_before : Row → Row → Bool
row_before a b = ltb a.order b.order || (a.order == b.order && ltb a.coins b.coins)

-- A stable sort: a row is put before the first that is not before it.
insert_row : Row → List Row → List Row
insert_row r [] = r ∷ []
insert_row r (x ∷ xs) =
    let rest = insert_row r xs in if row_before x r then x ∷ rest else r ∷ x ∷ xs

sort_rows : List Row → List Row
unfolding insert_row
sort_rows [] = []
sort_rows (r ∷ rs) = insert_row r (sort_rows rs)

unfoldable pub catalog_offers : Store → ℕ → List Product → List Offer
unfolding rows_of sort_rows
catalog_offers db now products = map (λ r. r.offer) (sort_rows (rows_of db now products))
