-- ===== src/Tests.antt =====
-- A small service in use: concrete inputs at which the theorems apply.
mod World
mod Spending
mod Purchases
mod Viewing
mod Media
mod Activity
mod Registry
mod Provider
mod Ledger
mod Keys
mod Editing
mod Uploads
