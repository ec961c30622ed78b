-- ===== src/Commerce.antt =====
-- backend/apps/commerce: coin packs and the fulfilment of purchases.
pub mod Packs
pub mod Catalog
pub mod Identities
pub mod Decisions
pub mod Fulfilment
pub mod Safety
pub mod Pricing
pub mod Offers
pub mod Once
pub mod Deliveries
pub mod Settled
pub mod Registry
pub mod Callbacks
pub mod Provider
pub mod Notifications
pub mod Reads
pub mod Reconciliation
