-- ===== src/Domain.antt =====
-- internal/domain: the models, their constants and their checks.
mod Models
mod Tasks
mod Analytics
pub mod Paging
pub use Models.*
unfoldable pub use Models.{can_invite, is_owner_or_admin, role_valid}
unfoldable pub use Tasks.*
pub use Analytics.*
