-- ===== src/ControlPlane.antt =====
-- The control plane: crates/application, services/control-plane and crates/control-plane-sqlite.
pub mod Application
pub mod Projection
pub mod State
pub mod Trimming
pub mod Normalize
pub mod Commands
pub mod Invariant
pub mod Queued
pub mod Reach
pub mod Persisted
pub mod Storage
mod Examples
