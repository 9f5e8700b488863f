-- ===== src/Tests.antt =====
-- Runs of the model on small inputs, and the theorems at these inputs.
mod Fixtures
mod Blocks
mod Rows
mod Service
mod Shown
mod Messages
mod Snapshots
mod Following
mod Subcommands
mod Starting
mod Replays
mod Requests
mod Requested
mod Running
