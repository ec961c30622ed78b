-- ===== src/Commerce/Packs.antt =====
-- backend/apps/commerce/models.py, `pack_coins` and `CoinPack.save`, and packs.py, which packs are
-- live, and what a payment is credited. `honor_window` is 24 hours in microseconds.
use shortform_streaming.Prelude.{
  ℕ, ◌+◌, ◌*◌, ◌/◌, Bool, true, false, not, ◌&&◌, ◌||◌, Option, none, some, List, [], ◌∷◌, select,
  leb, ltb, ◌==◌,
}
use Prim.Native.Nat.{max, min}
use shortform_streaming.Model.{CoinPack, Product, PurchaseMode, Environment, Store}
use shortform_streaming.Catalog.Rights.{started, not_ended}

-- A bonus of `bonus` hundredths, rounded down.
unfoldable pub pack_coins : ℕ → ℕ → ℕ
pack_coins base bonus = base + base * bonus / 100

retirement : ℕ → CoinPack → Option ℕ
retirement now p = elim p.is_active [
  | true ↦ p.retired_at
  | false ↦ elim p.retired_at [ none ↦ some now | some t ↦ some t ]
]

-- `CoinPack.save`
unfoldable pub save_pack : ℕ → CoinPack → CoinPack
unfolding pack_coins retirement
save_pack now p = record p {
  coins = pack_coins p.base_coins p.bonus;
  retired_at = retirement now p;
}

-- `bonus_percent`
abbrev pub bonus_percent : CoinPack → ℕ
bonus_percent p = p.bonus

-- `_live`
unfoldable pub is_live : ℕ → CoinPack → Bool
is_live now p = started p.starts_at now && not_ended p.ends_at now && p.is_active

abbrev pub honor_window : ℕ
honor_window = 86400000000

-- `t > paid_at - HONOR_WINDOW`, or no such instant.
abbrev pub after_window_start : Option ℕ → ℕ → Bool
after_window_start none paid_at = true
after_window_start (some t) paid_at = ltb paid_at (t + honor_window)

unfoldable pub is_honored : ℕ → ℕ → CoinPack → Bool
is_honored product_id paid_at p =
    started p.starts_at paid_at
    && after_window_start p.ends_at paid_at
    && after_window_start p.retired_at paid_at
    && leb p.created_at paid_at
    && p.product_id == product_id

unfoldable pub max_coins : ℕ → List CoinPack → ℕ
max_coins floor [] = floor
max_coins floor (p ∷ ps) = max (max_coins floor ps) p.coins

-- The instant of a payment: never in the future.
unfoldable pub paid_at : ℕ → ℕ → ℕ
paid_at purchased_at_ms now = min (purchased_at_ms * 1000) now

unfoldable pub credited_coins : Store → ℕ → Product → ℕ → ℕ
unfolding max_coins
credited_coins db now product purchased_at_ms =
    max_coins product.coins
      (select (is_honored product.product_id (paid_at purchased_at_ms now)) db.packs)

abbrev is_test : PurchaseMode → Bool
is_test PurchaseMode.test = true
is_test _ = false

abbrev is_sandbox : PurchaseMode → Bool
is_sandbox PurchaseMode.revenuecat_sandbox = true
is_sandbox _ = false

-- backend/apps/commerce/configuration.py
unfoldable pub reconciliation_enabled : Environment → Bool
reconciliation_enabled env = (env.debug || env.hosted_sandbox) && is_sandbox env.coin_purchase_mode

unfoldable pub purchases_enabled : Environment → Bool
unfolding reconciliation_enabled
purchases_enabled env =
    reconciliation_enabled env
    || (env.debug && not env.hosted_sandbox && is_test env.coin_purchase_mode)
