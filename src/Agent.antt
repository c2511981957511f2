-- ===== src/Agent.antt =====
-- crates/agent: the client that connects a local server to the relay.
pub mod Events
pub mod Reconnect
pub mod Handshake
pub mod PublicUrl
pub mod RelayClient
pub mod LocalProxy
pub mod Proxy
pub mod WsStream
pub mod Connection
pub mod Run
mod Examples
