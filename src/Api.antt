-- ===== src/Api.antt =====
-- bin/bis/src/api: the errors and the balance snapshots of the web API.
mod Defs
pub mod Reads
pub mod Utxos
pub mod Protected
pub mod Transactions
pub mod Snapshots
pub mod History
pub mod Params
pub mod Service
mod Sending
mod Unchanged
pub mod Agreement
pub mod Effects
unfoldable pub use Defs.*
