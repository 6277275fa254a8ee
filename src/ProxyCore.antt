-- ===== src/ProxyCore.antt =====
-- crates/proxy-core: the value types and pure decisions that the services share.
pub mod Runtime
pub mod ProviderLifecycle
pub mod CreateDispatch
pub mod Commands
pub mod Fingerprints
pub mod Records
mod Examples
