-- ===== src/Relay.antt =====
-- crates/relay-server: the public side of the tunnel.
pub mod Events
pub mod State
pub mod Config
pub mod WsSession
pub mod HttpIngress
pub mod Ingress
pub mod WsTunnel
mod Server
