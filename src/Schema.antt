-- ===== src/Schema.antt =====
-- The rows of the database and the requests that write them.
pub mod Trade
pub mod Database
