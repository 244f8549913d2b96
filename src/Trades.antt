-- ===== src/Trades.antt =====
-- Peer-to-peer trading (apps/api/src/trades).
mod Close
pub mod Promises
pub mod Escrow
pub mod Offers
pub mod Coins
pub mod Copies
pub mod Lifecycle
pub mod Lines
pub mod Outcomes
pub mod Proposals
pub mod Expiry
mod Settlement
pub mod VoidAll
mod Service
unfoldable pub use Close.*
unfoldable pub use VoidAll.*
unfoldable pub use Settlement.*
unfoldable pub use Service.*
