-- ===== src/Tunnel.antt =====
-- The two ends of a tunnelled websocket together: crates/relay-server/src/ws_tunnel.rs and
-- src/ws_session.rs on the relay, crates/agent/src/relay_client.rs on the agent.
pub mod Connect
pub mod ToLocal
pub mod ToClient
pub mod ClientEnds
pub mod LocalEnds
mod Examples
mod ConnectExamples
