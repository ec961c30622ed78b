-- ===== src/Model.antt =====
-- The tables of the database and the settings, which the components share.
mod Deployment
mod Catalog
mod Accounts
mod Accounting
mod Context
mod Database
mod Effects
pub mod JsonValues
pub use Deployment.*
pub use Catalog.*
pub use Accounts.*
pub use Accounting.*
pub use Context.*
pub use Database.*
unfoldable pub use Effects.*
