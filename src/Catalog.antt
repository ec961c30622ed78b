-- ===== src/Catalog.antt =====
-- backend/apps/catalog: launch context, rights admission and eligibility.
pub mod IsoCodes
pub mod Context
pub mod Rights
pub mod Eligibility
pub mod Episodes
pub mod Agreement
pub mod Gate
pub mod Publication
