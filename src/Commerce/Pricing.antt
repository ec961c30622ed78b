-- ===== src/Commerce/Pricing.antt =====
-- `pack_coins` and `credited_coins` of backend/apps/commerce.
use shortform_streaming.Prelude.{
  ℕ, ◌+◌, ◌*◌, ◌≤◌, ◌<◌, ◌≡◌, Bool, true, Option, none, some, List, [], ◌∷◌, ◌⊎◌, arith, inl, inr,
  select, Bool-cases, ==_refl, refl, subst,
}
use Prim.Native.Nat.{max}
use mathlib.Core.List.{Memᴰ}
use native.Mathlib.Decide.{dec_le}
use shortform_streaming.Model.{CoinPack, Product, Store}
use shortform_streaming.Catalog.Rights.{started, not_ended}
use shortform_streaming.Commerce.Packs.{
  pack_coins, honor_window, is_honored, max_coins, paid_at, credited_coins, after_window_start,
}

-- A pack within the limits of its form holds at least its base coins and at most three times as
-- many, so at most the 2147483647 of its column; the extra coins are the bonus rounded down.
pub pack_coins_bounds :
    (base bonus : ℕ)
    → base ≤ 1000000
    → bonus ≤ 200
    → (base ≤ pack_coins base bonus)
      × (pack_coins base bonus ≤ 3 * base)
      × (pack_coins base bonus ≤ 2147483647)
      × (100 * pack_coins base bonus ≤ base * (100 + bonus))
      × (base * (100 + bonus) < 100 * pack_coins base bonus + 100)
unfolding pack_coins
pack_coins_bounds base bonus h k = grind arith

-- The same purchase is never credited less than the floor or than a pack of the list.
max_coins-ge_floor : (floor : ℕ) (ps : List CoinPack) → floor ≤ max_coins floor ps
unfolding max_coins
max_coins-ge_floor floor [] = omega arith
max_coins-ge_floor floor (p ∷ ps) = omega (arith, max_coins-ge_floor floor ps)

max_coins-ge_member :
    (floor : ℕ) (f : CoinPack → Bool) (ps : List CoinPack) (p : CoinPack)
    → Memᴰ p ps
    → f p ≡ true
    → p.coins ≤ max_coins floor (select f ps)
unfolding max_coins
max_coins-ge_member floor f [] p m h = elim m [ ]
max_coins-ge_member floor f (q ∷ ps) p (Memᴰ.head e) h =
    let chosen : f q ≡ true = rw e at h in rw (chosen, e) (omega arith)
max_coins-ge_member floor f (q ∷ ps) p (Memᴰ.tail m) h = elim (Bool-cases (f q)) [
  | inl e ↦ rw e (omega (arith, max_coins-ge_member floor f ps p m h))
  | inr e ↦ rw e (max_coins-ge_member floor f ps p m h)
]

-- Where the greatest comes from.
max_coins-cases :
    (floor : ℕ) (f : CoinPack → Bool) (ps : List CoinPack)
    → (max_coins floor (select f ps) ≡ floor)
      ⊎ ((p : CoinPack) × Memᴰ p ps × (f p ≡ true) × (p.coins ≡ max_coins floor (select f ps)))
unfolding max_coins
max_coins-cases floor f [] = inl refl
max_coins-cases floor f (q ∷ ps) = elim (Bool-cases (f q)) [
  | inr e ↦ rw e (lift (max_coins-cases floor f ps))
  | inl e ↦
      rw e (pick e (max_coins-cases floor f ps) (dec_le (max_coins floor (select f ps)) q.coins))
]
  where
    lift :
        (max_coins floor (select f ps) ≡ floor)
          ⊎ ((p : CoinPack) × Memᴰ p ps × (f p ≡ true) × (p.coins ≡ max_coins floor (select f ps)))
        → (max_coins floor (select f ps) ≡ floor)
          ⊎ ((p : CoinPack) × Memᴰ p (q ∷ ps)
              × (f p ≡ true)
              × (p.coins ≡ max_coins floor (select f ps)))
    lift (inl a) = inl a
    lift (inr (p, m, h, c)) = inr (p, Memᴰ.tail m, h, c)

    pick :
        f q ≡ true
        → (max_coins floor (select f ps) ≡ floor)
          ⊎ ((p : CoinPack) × Memᴰ p ps × (f p ≡ true) × (p.coins ≡ max_coins floor (select f ps)))
        → Dec (max_coins floor (select f ps) ≤ q.coins)
        → (max (max_coins floor (select f ps)) q.coins ≡ floor)
          ⊎ ((p : CoinPack) × Memᴰ p (q ∷ ps)
              × (f p ≡ true)
              × (p.coins ≡ max (max_coins floor (select f ps)) q.coins))
    pick e c (yes le) = inr (q, Memᴰ.head refl, e, omega arith)
    pick e (inl a) (no gt) = inl (omega arith)
    pick e (inr (p, m, h, c)) (no gt) = inr (p, Memᴰ.tail m, h, omega arith)

-- The pack is on offer at `t`: within its schedule, created, and not yet retired.
pub record IsOfferedAt (t : ℕ) (p : CoinPack) : Type 0 where
  pub has_started : started p.starts_at t ≡ true
  pub has_not_ended : not_ended p.ends_at t ≡ true
  pub has_not_retired : not_ended p.retired_at t ≡ true
  pub is_created : p.created_at ≤ t

offered-honored :
    (t paid : ℕ) (p : CoinPack)
    → IsOfferedAt t p
    → t ≤ paid
    → paid < t + honor_window
    → is_honored p.product_id paid p ≡ true
unfolding is_honored
offered-honored t paid p o before near = ground (arith, ==_refl p.product_id)

-- A payment is credited no less than the registry's floor, and no less than any stored pack of the
-- product that was on offer within the 24 hours up to the payment.
pub credited_coins_covers :
    (db : Store) (now : ℕ) (product : Product) (purchased_at_ms : ℕ) (t : ℕ) (p : CoinPack)
    → Memᴰ p db.packs
    → p.product_id ≡ product.product_id
    → IsOfferedAt t p
    → t ≤ paid_at purchased_at_ms now
    → paid_at purchased_at_ms now < t + honor_window
    → (product.coins ≤ credited_coins db now product purchased_at_ms)
      × (p.coins ≤ credited_coins db now product purchased_at_ms)
unfolding credited_coins
credited_coins_covers db now product ms t p m same o before near = (
  max_coins-ge_floor product.coins _,
  max_coins-ge_member product.coins _ db.packs p m (
      subst (λ k. is_honored k (paid_at ms now) p ≡ true) same
        (offered-honored t (paid_at ms now) p o before near)),
)

-- The payment is within 24 hours of the instant, or there is none.
abbrev pub IsInTime : Option ℕ → ℕ → Type 0
IsInTime limit paid = (t : ℕ) → limit ≡ some t → paid < t + honor_window

-- The pack of the product existed and had started when the payment was made, and had neither ended
-- nor been retired 24 hours before it.
pub record IsPayable (product_id paid : ℕ) (p : CoinPack) : Type 0 where
  pub of_product : p.product_id ≡ product_id
  pub existed : p.created_at ≤ paid
  pub had_started : (t : ℕ) → p.starts_at ≡ some t → t ≤ paid
  pub ended_late : IsInTime p.ends_at paid
  pub retired_late : IsInTime p.retired_at paid

started-by : (o : Option ℕ) (paid : ℕ) → started o paid ≡ true → (t : ℕ) → o ≡ some t → t ≤ paid
started-by none paid h t e = absurd (cc e)
started-by (some s) paid h t e = ground (arith, h, e)

by-started : (o : Option ℕ) (paid : ℕ) → ((t : ℕ) → o ≡ some t → t ≤ paid) → started o paid ≡ true
by-started none paid h = refl
by-started (some s) paid h = ground (arith, h s refl)

window-IsInTime : (o : Option ℕ) (paid : ℕ) → after_window_start o paid ≡ true → IsInTime o paid
window-IsInTime none paid h t e = absurd (cc e)
window-IsInTime (some s) paid h t e = ground (arith, h, e)

IsInTime-window : (o : Option ℕ) (paid : ℕ) → IsInTime o paid → after_window_start o paid ≡ true
IsInTime-window none paid h = refl
IsInTime-window (some s) paid h = ground (arith, h s refl)

honored-IsPayable :
    (product_id paid : ℕ) (p : CoinPack)
    → is_honored product_id paid p ≡ true
    → IsPayable product_id paid p
unfolding is_honored
honored-IsPayable product_id paid p h =
    let (begun, ended, retired) : (started p.starts_at paid ≡ true)
        × (after_window_start p.ends_at paid ≡ true)
        × (after_window_start p.retired_at paid ≡ true) =
      (ground arith, ground arith, ground arith) in
    record {
      of_product = ground arith;
      existed = ground arith;
      had_started = started-by p.starts_at paid begun;
      ended_late = window-IsInTime p.ends_at paid ended;
      retired_late = window-IsInTime p.retired_at paid retired;
    }

IsPayable-honored :
    (product_id paid : ℕ) (p : CoinPack)
    → IsPayable product_id paid p
    → is_honored product_id paid p ≡ true
unfolding is_honored
IsPayable-honored product_id paid p h = ground (
  arith,
  by-started p.starts_at paid h.had_started,
  IsInTime-window p.ends_at paid h.ended_late,
  IsInTime-window p.retired_at paid h.retired_late,
  h.existed,
  h.of_product,
  ==_refl product_id,
)

-- What a payment is credited is the greatest of the registry's floor and the coins of the stored
-- packs that are payable: packs of the product that existed and had started when the payment was
-- made, and had neither ended nor been retired 24 hours before it.
pub credited_coins_source :
    (db : Store) (now : ℕ) (product : Product) (purchased_at_ms : ℕ)
    → (product.coins ≤ credited_coins db now product purchased_at_ms)
      × ((p : CoinPack)
          → Memᴰ p db.packs
          → IsPayable product.product_id (paid_at purchased_at_ms now) p
          → p.coins ≤ credited_coins db now product purchased_at_ms)
      × ((credited_coins db now product purchased_at_ms ≡ product.coins)
          ⊎ ((p : CoinPack) × Memᴰ p db.packs
              × IsPayable product.product_id (paid_at purchased_at_ms now) p
              × (p.coins ≡ credited_coins db now product purchased_at_ms)))
unfolding credited_coins
credited_coins_source db now product ms = (
  max_coins-ge_floor product.coins _,
  (λ p m payable.
      max_coins-ge_member product.coins _ db.packs p m (IsPayable-honored _ _ p payable)),
  elim (max_coins-cases product.coins (is_honored product.product_id (paid_at ms now)) db.packs) [
    | inl floor ↦ inl floor
    | inr (p, m, honored, same) ↦ inr (p, m, honored-IsPayable _ _ p honored, same)
  ],
)
