-- ===== src/Ledger.antt =====
-- The tables that the aggregator writes (core/migrations/20241120123711_bitcoin.sql) and the queries
-- on them (core/src/sqlx_postgres/bitcoin.rs).
mod Tables
mod Queries
pub mod Totals
pub use Tables.*
unfoldable pub use Queries.*
