-- ===== src/ReverseTunnel.antt =====
-- crates/reverse-tunnel: the tunnel between a device and the public server.
pub mod Server
pub mod Events
