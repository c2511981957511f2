-- ===== src/Protocol.antt =====
-- crates/protocol: what the relay and the agent share. This file is src/lib.rs.
pub mod Http
pub mod Message
pub mod Frame
mod Examples
use tunely.Prelude.{ℕ, Bool, ◌||◌, ◌==◌}
use tunely.Prelude.Bytes.{Text, codes}

abbrev pub legacy_protocol_version : ℕ
legacy_protocol_version = 1

abbrev pub protocol_version : ℕ
protocol_version = 2

abbrev pub cap_ws_tunnel_v1 : Text
cap_ws_tunnel_v1 = codes "ws_tunnel_v1"

unfoldable pub is_supported_protocol_version : ℕ → Bool
is_supported_protocol_version version =
    version == legacy_protocol_version || version == protocol_version
