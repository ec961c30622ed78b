-- ===== src/Entitlements.antt =====
-- backend/apps/entitlements/policy.py: who may watch an episode, and the offers.
pub mod Policy
pub mod Offers
pub mod Decisions
