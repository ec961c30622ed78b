-- ===== src/Tests/Activity.antt =====
-- The account's view of its ledger (backend/apps/wallet/activity.py).
use shortform_streaming.Prelude.{none}
use shortform_streaming.Prelude.Int.{pos}
use shortform_streaming.Model.{Kind}
use shortform_streaming.Wallet.Activity.{WalletActivityEntry}

abbrev line : WalletActivityEntry
line = record {
  id = 1;
  kind = Kind.purchase;
  amount = pos 20;
  balance_after = pos 20;
  created_at = 0;
  episode_id = none;
  episode_title = none;
}
