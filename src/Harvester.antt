-- ===== src/Harvester.antt =====
-- core/src/bitcoin/harvester/mod.rs: the loop that follows the chain of the node.
mod State
mod Defs
pub mod Rules
pub mod Fork
pub mod Progress
pub mod Frame
pub mod Bounded
pub mod Restart
pub mod Lost
pub mod Paused
pub mod Cancelled
pub mod Errors
pub mod Consistent
pub use State.*
unfoldable pub use Defs.*
