-- ===== src/Wallet.antt =====
-- The accounts: balances and the ledger that explains them.
mod Model
pub mod Laws
unfoldable pub use Model.*
