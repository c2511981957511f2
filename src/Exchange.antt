-- ===== src/Exchange.antt =====
-- Both ends of one HTTP request together: crates/relay-server/src/http_ingress.rs and src/ws_session.rs
-- on the relay, crates/agent/src/relay_client.rs on the agent.
pub mod Sending
pub mod Request
pub mod CutUpload
pub mod Unread
pub mod EarlyAnswer
pub mod Failure
pub mod CutAnswer
pub mod Answer
pub mod Whole
mod Examples
mod FailureExamples
mod LeftExamples
mod WholeExample
