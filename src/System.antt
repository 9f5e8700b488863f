-- ===== src/System.antt =====
-- The processor and the aggregator, joined by the channel of messages (bin/bis/src/mono.rs makes
-- both and hands the sender to the one and the receiver to the other).
pub mod Pipeline
pub mod Interleaving
pub mod Running
pub mod Lasting
pub mod Stopped
pub mod Shutdown
