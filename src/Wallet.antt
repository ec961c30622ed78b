-- ===== src/Wallet.antt =====
-- backend/apps/wallet: the coin ledger and unlocking.
pub mod Ledger
pub mod Unlocks
pub mod Balance
pub mod Locking
pub mod Runs
pub mod Charging
pub mod Requests
pub mod Cancelled
pub mod Activity
pub mod Affordable
