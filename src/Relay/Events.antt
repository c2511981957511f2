-- ===== src/Relay/Events.antt =====
-- crates/relay-server: what travels over the channels of the relay's tasks (the event types of
-- src/state.rs) and the wire helper of src/ws_wire.rs.
use tunely.Prelude.{ℕ, Bool, false, Option, none, some, List, [], ◌∷◌, if◌then◌else◌}
use tunely.Prelude.Bytes.{Bytes, Text}
use tunely.Protocol.Message.{ControlMessage, Headers, Json}
use tunely.Protocol.Frame.{WsOpcode}

pub record CloseFrame : Type 0 where
  pub code : ℕ
  pub reason : Text

-- `axum::extract::ws::Message`
pub data Message : Type 0 where
  text : Text → Message
  binary : Bytes → Message
  ping : Bytes → Message
  pong : Bytes → Message
  close : Option CloseFrame → Message

pub data RelayEvent : Type 0 where
  -- status, headers
  start : ℕ → Headers → RelayEvent
  body : Bytes → RelayEvent
  end : RelayEvent
  -- code, message
  error : Text → Text → RelayEvent

pub record WsConnectAck : Type 0 where
  pub accepted : Bool
  pub selected_subprotocol : Option Text
  pub reason : Option Text

pub data WsRelayEvent : Type 0 where
  frame : WsOpcode → Bytes → WsRelayEvent
  -- code, reason
  close : Option ℕ → Option Text → WsRelayEvent

-- The sending end of a tokio channel, by the channel's number; clones share it.
abbrev pub Sender : Type 0
Sender = ℕ

-- What is sent on the four kinds of channel.
pub data Packet : Type 0 where
  message : Message → Packet
  relay_event : RelayEvent → Packet
  connect_ack : WsConnectAck → Packet
  ws_event : WsRelayEvent → Packet

abbrev pub Sent : Type 0
Sent = Sender × Packet

-- The channels' answers: a send fails when the receiver is gone.
abbrev pub Accepts : Type 0
Accepts = Sender → Packet → Bool

-- What a send leaves on the channel.
abbrev pub send : Accepts → Sender → Packet → List Sent
send accepts s p = if accepts s p then (s, p) ∷ [] else []

-- `send_control`: what is on the channel afterwards, and whether the call succeeded.
unfoldable pub send_control : Json → Accepts → Sender → ControlMessage → List Sent × Bool
send_control json accepts sender msg = elim (json.to_string msg) [
  | none ↦ ([], false)
  | some payload ↦ (
    send accepts sender (message (Message.text payload)),
    accepts sender (message (Message.text payload)),
  )
]
