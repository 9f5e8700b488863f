-- ===== src/Processor.antt =====
-- core/src/bitcoin/harvester/processor.rs: a block becomes rows of the chain tables and messages to
-- the aggregator.
mod State
mod Defs
pub mod Rules
pub mod Balances
pub mod Known
pub mod Accounts
pub mod Steps
pub mod Conservation
pub mod Messages
pub mod Fork
pub mod Spending
pub mod Writes
pub mod Rollback
pub mod Undo
pub mod Consistent
pub mod Success
pub mod Completes
pub mod Liveness
pub use State.*
unfoldable pub use Defs.*
