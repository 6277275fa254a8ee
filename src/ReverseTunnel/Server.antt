-- ===== src/ReverseTunnel/Server.antt =====
-- crates/reverse-tunnel/src/state.rs: the server's registry of device sessions.
pub mod Types
pub mod Sessions
pub mod Streams
pub mod Select
pub mod View
pub mod Consistent
pub mod WellFormed
pub mod Heartbeats
pub mod Shutdown
pub mod Steps
pub mod Keeps
pub mod Reachable
pub mod Admit
pub mod Bounded
pub mod Capacity
pub mod Fencing
pub mod Disconnect
pub mod Accept
pub mod Candidates
pub mod Found
pub mod Routing
pub mod Heartbeat
mod Examples
