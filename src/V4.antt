-- ===== src/V4.antt =====
-- src/v4: NFSv4.
pub mod Status
pub mod OpCode
pub mod Args
pub mod Transfer
pub mod Operation
pub mod Response
pub mod Replay
pub mod Policy
pub mod Shape
pub mod Extract
pub mod WellShaped
pub mod Locks
pub mod Paths
pub mod Tokens
pub mod Snapshots
pub mod Setup
pub mod Files
pub mod Calls
pub mod Paging
pub mod Opening
pub mod Session
pub mod Recovery
pub mod Traces
pub mod Sends
pub mod Replays
pub mod Delays
pub mod Limits
pub mod Runs
