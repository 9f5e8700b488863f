-- ===== src/Aggregator.antt =====
-- core/src/bitcoin/aggregator.rs: the messages of the processor become events, balances and hourly
-- statistics.
mod State
mod Defs
pub mod Rules
pub mod Recording
pub mod Balanced
pub mod Worth
pub mod Book
pub mod Task
pub mod Reorg
pub mod Faults
pub mod Liveness
pub mod Recovery
pub use State.*
unfoldable pub use Defs.*
