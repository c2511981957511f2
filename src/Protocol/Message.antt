-- ===== src/Protocol/Message.antt =====
-- crates/protocol/src/message.rs: the control messages, sent as JSON text frames.
use tunely.Prelude.{ℕ, Bool, Option, List}
use tunely.Prelude.Bytes.{Text, Bytes}

-- Header lists keep the order and the repetitions of the message.
abbrev pub Headers : Type 0
Headers = List (Text × Text)

-- A `Uuid` is its 16 bytes.
abbrev pub Uuid : Type 0
Uuid = Bytes

pub data ControlMessage : Type 0 where
  -- tunnel_id, token, protocol_version, capabilities
  register_agent : Text → Text → Option ℕ → List Text → ControlMessage
  -- ok, reason, protocol_version, capabilities
  register_ack : Bool → Option Text → Option ℕ → List Text → ControlMessage
  -- request_id, method, path_and_query, headers
  http_request_start : Uuid → Text → Text → Headers → ControlMessage
  http_request_end : Uuid → ControlMessage
  -- request_id, status, headers
  http_response_start : Uuid → ℕ → Headers → ControlMessage
  http_response_end : Uuid → ControlMessage
  -- stream_id, path_and_query, headers, subprotocols
  ws_connect : Uuid → Text → Headers → List Text → ControlMessage
  -- stream_id, ok, selected_subprotocol, reason
  ws_connect_ack : Uuid → Bool → Option Text → Option Text → ControlMessage
  -- stream_id, code, reason
  ws_close : Uuid → Option ℕ → Option Text → ControlMessage
  -- request_id, code, message
  error : Option Uuid → Text → Text → ControlMessage
  ping : ℕ → ControlMessage
  pong : ℕ → ControlMessage

-- `serde_json` over the control messages, which neither side looks into.
pub record Json : Type 0 where
  pub to_string : ControlMessage → Option Text
  pub from_str : Text → Option ControlMessage
