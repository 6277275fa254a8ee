-- ===== src/Foundation.antt =====
-- crates/foundation/src/lib.rs: bounded names, deadlines, and the digests of content.
pub mod Digests
pub mod Values
mod Examples
