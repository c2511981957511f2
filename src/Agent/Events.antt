-- ===== src/Agent/Events.antt =====
-- crates/agent/src/relay_client.rs and src/inflight.rs: the agent's channels, events and tables.
use tunely.Prelude.{ℕ, Bool, false, Option, none, some, List, [], ◌∷◌, if◌then◌else◌}
use tunely.Prelude.Bytes.{Bytes, Text}
use tunely.Prelude.Map.{Map}
use tunely.Protocol.Message.{ControlMessage, Json}
use tunely.Protocol.Frame.{WsOpcode}

-- `tungstenite::Message`
pub data Message : Type 0 where
  text : Text → Message
  binary : Bytes → Message
  ping : Bytes → Message
  pong : Bytes → Message
  -- code and reason
  close : Option (ℕ × Text) → Message
  raw_frame : Bytes → Message

pub data WsInboundEvent : Type 0 where
  frame : WsOpcode → Bytes → WsInboundEvent
  -- code, reason
  close : Option ℕ → Option Text → WsInboundEvent

-- The sending end of a channel, by the channel's number.
abbrev pub Sender : Type 0
Sender = ℕ

pub data Packet : Type 0 where
  to_relay : Message → Packet
  body_chunk : Bytes → Packet
  ws_inbound : WsInboundEvent → Packet

abbrev pub Sent : Type 0
Sent = Sender × Packet

-- The channels' answers: a send fails when the receiver is gone.
abbrev pub Accepts : Type 0
Accepts = Sender → Packet → Bool

abbrev pub send : Accepts → Sender → Packet → List Sent
send accepts s p = if accepts s p then (s, p) ∷ [] else []

-- `send_control`: what is on the channel afterwards, and whether the call succeeded.
unfoldable pub send_control : Json → Accepts → Sender → ControlMessage → List Sent × Bool
send_control json accepts relay_tx msg = elim (json.to_string msg) [
  | none ↦ ([], false)
  | some payload ↦ (
    send accepts relay_tx (to_relay (Message.text payload)),
    accepts relay_tx (to_relay (Message.text payload)),
  )
]

-- `Inflight` is a map from requests to the channels of their bodies.
abbrev pub Inflight : Type 0
Inflight = Map Sender
