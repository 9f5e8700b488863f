-- ===== src/Chain.antt =====
-- The tables that the harvester's side writes (core/migrations/20241120123711_bitcoin.sql) and the
-- queries on them (core/src/sqlx_postgres/bitcoin.rs). A list of rows stands for a table; the order
-- of the rows means nothing.
mod Tables
mod Queries
pub mod Rows
pub mod Unspent
pub mod Keys
pub mod Totals
pub mod Undo
pub mod Consistent
pub use Tables.*
unfoldable pub use Queries.*
