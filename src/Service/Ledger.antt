-- ===== src/Service/Ledger.antt =====
-- What backend/apps/wallet and backend/apps/commerce promise of a coin ledger: a balance for each
-- wallet, and what each kind of call may do to the balances.
mod Untouched
pub mod Refinement
use shortform_streaming.Prelude.{ℕ, ◌≡◌, ◌≢◌, List, [], ◌∷◌}
use shortform_streaming.Prelude.Int.{ℤ, pos, neg_ℕ, ◌+ℤ◌, ◌≤ℤ◌}

abbrev pub Balances : Type 0
Balances = ℕ → ℤ

-- A call that answers with the receipt of an unlock, which names the wallet and the coins charged,
-- one that fulfils a purchase, and any other.
pub data Call : Type 0 where
  spending : ℕ → ℕ → Call
  earning other_call : Call

pub data LedgerStep (before after : Balances) : Call → Type 0 where
  keep : (call : Call) → ((v : ℕ) → after v ≡ before v) → LedgerStep before after call
  credit :
      (w coins : ℕ)
      → after w ≡ pos coins +ℤ before w
      → ((v : ℕ) → v ≢ w → after v ≡ before v)
      → LedgerStep before after earning
  debit :
      (w coins : ℕ)
      → pos coins ≤ℤ before w
      → after w ≡ neg_ℕ coins +ℤ before w
      → ((v : ℕ) → v ≢ w → after v ≡ before v)
      → LedgerStep before after (spending w coins)

-- One step for each call of the list, the latest first.
pub data LedgerRun (before : Balances) : List Call → Balances → Type 0 where
  done : LedgerRun before [] before
  then :
      {mid after : Balances} {call : Call} {calls : List Call}
      → LedgerRun before calls mid
      → LedgerStep mid after call
      → LedgerRun before (call ∷ calls) after
