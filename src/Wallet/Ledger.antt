-- ===== src/Wallet/Ledger.antt =====
-- backend/apps/wallet/migrations/0002_accounting_safeguards.py and 0004_cancellation_guards.py, the
-- guards on each insert, with the constraints of models.py; `wallet_balance` of services.py.
use shortform_streaming.Prelude.{
  ℕ, Bool, true, false, not, ◌&&◌, ◌||◌, Option, none, some, List, [], ◌∷◌, if◌then◌else◌, any,
  find, ltb, leb, ◌==◌, is_some, is_just,
}
use shortform_streaming.Prelude.Int.{ℤ, pos, neg_ℕ, ◌+ℤ◌, ltb_ℤ, leb_ℤ}
use shortform_streaming.Model.{
  Wallet, Kind, CoinLedgerEntry, CoinUnlock, CoinUnlockCancellation, UserProfile, Store, Error,
  Action, gets, modify, raise_if, fresh, pure, ◌>>=◌, ◌>>◌, max_entry_coins, max_balance_coins,
}

-- `SUM(amount)` over a wallet, 0 for none.
unfoldable pub balance : ℕ → List CoinLedgerEntry → ℤ
balance w [] = pos 0
balance w (e ∷ es) = let rest = balance w es in if e.wallet == w then e.amount +ℤ rest else rest

unfoldable pub wallet_balance : Store → Wallet → ℤ
wallet_balance db w = balance w.pk db.entries

-- The row of the wallet exists and belongs to an account.
unfoldable pub is_attached : ℕ → Store → Bool
is_attached w db = any (λ x. x.pk == w && is_some x.user_profile) db.wallets

-- wallet_ledger_valid_kind_sign
abbrev pub valid_kind_sign : Kind → ℤ → Bool
valid_kind_sign Kind.purchase amount = ltb_ℤ (pos 0) amount
valid_kind_sign Kind.unlock amount = ltb_ℤ amount (pos 0)
valid_kind_sign Kind.correction amount = ltb_ℤ (pos 0) amount || ltb_ℤ amount (pos 0)

-- wallet_ledger_bounded_amount
abbrev pub bounded_amount : ℤ → Bool
bounded_amount amount = leb_ℤ (neg_ℕ max_entry_coins) amount && leb_ℤ amount (pos max_entry_coins)

-- A balance within the range of a safe integer.
abbrev pub in_balance_range : ℤ → Bool
in_balance_range b = leb_ℤ (pos 0) b && leb_ℤ b (pos max_balance_coins)

-- `wallet_guard_ledger_insert` and the two check constraints.
unfoldable pub accepts_entry : ℕ → Kind → ℤ → Store → Bool
unfolding is_attached
accepts_entry w kind amount db =
    is_attached w db
    && in_balance_range (balance w db.entries +ℤ amount)
    && valid_kind_sign kind amount
    && bounded_amount amount

-- `CoinLedgerEntry.objects.create`
unfoldable pub create_entry : ℕ → Wallet → ℕ → Kind → ℤ → Action CoinLedgerEntry
unfolding accepts_entry
create_entry now w reference kind amount = do
  accepted ← gets (accepts_entry w.pk kind amount)
  raise_if (not accepted) Error.integrity_error
  pk ← fresh
  let e : CoinLedgerEntry = record {
    pk = pk;
    wallet = w.pk;
    reference = reference;
    kind = kind;
    amount = amount;
    created_at = now;
  }
  modify (λ db. record db { entries = e ∷ db.entries })
  pure e

abbrev pub is_unlock_kind : Kind → Bool
is_unlock_kind Kind.unlock = true
is_unlock_kind _ = false

abbrev eq_ℤ : ℤ → ℤ → Bool
eq_ℤ a b = leb_ℤ a b && leb_ℤ b a

-- The debit that a receipt names.
abbrev is_debit_of : CoinUnlock → ℕ → CoinLedgerEntry → Bool
is_debit_of u entry e =
    e.pk == entry
    && e.wallet == u.wallet
    && is_unlock_kind e.kind
    && eq_ℤ e.amount (neg_ℕ u.charged_coins)

unfoldable pub has_debit : CoinUnlock → Store → Bool
has_debit u db = elim u.ledger_entry [
  | none ↦ true
  | some entry ↦ any (is_debit_of u entry) db.entries
]

-- wallet_unlock_charge_has_entry
unfoldable pub charge_has_entry : CoinUnlock → Bool
charge_has_entry u =
    (u.charged_coins == 0 && not (is_some u.ledger_entry))
    || (ltb 0 u.charged_coins && u.charged_coins == u.expected_coin_price && is_some u.ledger_entry)

unfoldable pub find_unlock : ℕ → ℕ → Store → Option CoinUnlock
find_unlock w request db = find (λ u. u.wallet == w && u.request_id == request) db.unlocks

unfoldable pub find_cancellation : ℕ → ℕ → Store → Option CoinUnlockCancellation
find_cancellation w request db =
    find (λ c. c.wallet == w && c.request_id == request) db.cancellations

-- `wallet_guard_unlock_insert`, `wallet_guard_terminal_unlock`, the constraints, and the range of the
-- two integer columns.
unfoldable pub accepts_unlock : CoinUnlock → Store → Bool
unfolding has_debit charge_has_entry
accepts_unlock u db =
    is_attached u.wallet db
    && has_debit u db
    && not (is_some (find_cancellation u.wallet u.request_id db))
    && not (is_some (find_unlock u.wallet u.request_id db))
    && charge_has_entry u
    && leb u.expected_coin_price max_entry_coins
    && leb u.charged_coins max_entry_coins

-- `CoinUnlock.objects.create`
unfoldable pub create_unlock : CoinUnlock → Action CoinUnlock
create_unlock u = do
  accepted ← gets (accepts_unlock u)
  raise_if (not accepted) Error.integrity_error
  modify (λ db. record db { unlocks = u ∷ db.unlocks })
  pure u

-- `wallet_guard_terminal_unlock` and the constraints of a cancellation.
unfoldable pub accepts_cancellation : CoinUnlockCancellation → Store → Bool
accepts_cancellation c db =
    is_attached c.wallet db
    && not (is_some (find_unlock c.wallet c.request_id db))
    && not (is_some (find_cancellation c.wallet c.request_id db))
    && leb 1 c.expected_coin_price
    && leb c.expected_coin_price max_entry_coins

-- `CoinUnlockCancellation.objects.create`
unfoldable pub create_cancellation : CoinUnlockCancellation → Action CoinUnlockCancellation
create_cancellation c = do
  accepted ← gets (accepts_cancellation c)
  raise_if (not accepted) Error.integrity_error
  modify (λ db. record db { cancellations = c ∷ db.cancellations })
  pure c

unfoldable pub wallet_of : UserProfile → Store → Option Wallet
wallet_of p db = find (λ w. is_just p.pk w.user_profile) db.wallets

unfoldable pub or_new_wallet : UserProfile → Option Wallet → Action Wallet
or_new_wallet p (some w) = pure w
or_new_wallet p none = do
  pk ← fresh
  let w : Wallet = record { pk = pk; user_profile = some p.pk }
  modify (λ db. record db { wallets = w ∷ db.wallets })
  pure w

-- `Wallet.objects.select_for_update().get_or_create(user_profile=profile)`
unfoldable pub get_or_create_wallet : UserProfile → Action Wallet
unfolding wallet_of or_new_wallet
get_or_create_wallet p = do known ← gets (wallet_of p); or_new_wallet p known
