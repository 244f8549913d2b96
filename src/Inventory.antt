-- ===== src/Inventory.antt =====
-- The inventory (apps/api/src/inventory): model and service. The laws stand below it.
mod Model
mod Service
pub mod Locking
pub mod Moves
pub mod Progress
pub mod Normal
unfoldable pub use Model.*
unfoldable pub use Service.*
