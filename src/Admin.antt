-- ===== src/Admin.antt =====
-- Moderation and grants (apps/api/src/admin-users, apps/api/src/economy).
pub mod Grants
pub mod Replays
pub mod Welcome
pub mod Admins
pub mod Suspension
pub mod Moderation
mod Service
unfoldable pub use Service.*
