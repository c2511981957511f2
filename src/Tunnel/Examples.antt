-- ===== src/Tunnel/Examples.antt =====
-- Tunnelled websockets at concrete values.
use tunely.Prelude.{◌≡◌, refl, zero, suc, true, false, Option, none, some, List, [], ◌∷◌, map}
use tunely.Prelude.Bytes.{Text, codes, uuid, text_eq}
use tunely.Prelude.Map.{lookup}
use tunely.Prelude.Utf8.{is_utf8}
use tunely.Protocol.{is_supported_protocol_version}
use tunely.Protocol.Message.{ControlMessage, Json}
use tunely.Protocol.Frame.{
  WsOpcode, decode_chunk_header, encode_chunk_frame_with_version, to_be_bytes, encode_ws_payload,
  kind_of, kind_code, decode_ws_payload, opcode_of, opcode_code,
}
use tunely.Agent.Events.{WsInboundEvent, ws_inbound}
use tunely.Agent.Events as AgentEvents
use tunely.Agent.RelayClient.{RuntimeCtx, Tables, turn, handle_binary_message, handle_chunk}
use tunely.Agent.Proxy.Replies
use tunely.Agent.WsStream
use tunely.Agent.WsStream.{LocalRead, stream_loop, inbound_turn}
use tunely.Agent.WsStream.Loop as LocalLoop
use tunely.Relay.Events.{Message, WsRelayEvent, ws_event}
use tunely.Relay.State.{AppState, WsStreamHandle, remove_ws_stream, notify_ws_frame}
use tunely.Relay.WsSession
use tunely.Relay.WsSession.{Session}
use tunely.Relay.WsTunnel
use tunely.Relay.WsTunnel.{Socket, ClientRead, socket_loop, client_turn, relay_turn}
use tunely.Relay.WsTunnel.Loop.{client_messages, packet}
use tunely.Tunnel.ToLocal
use tunely.Tunnel.ToClient
use tunely.Tunnel.ToLocal.{read_as, take_one, take_sent, client_messages_reach_local}
use tunely.Tunnel.ToClient.{seen_as, local_messages_reach_client}
use tunely.Tunnel.ClientEnds.{client_end_reaches_local}
use tunely.Tunnel.LocalEnds.{local_end_reaches_client}

-- A JSON for the close message of each side.
unfoldable to_string : ControlMessage → Option Text
to_string (ControlMessage.ws_close id code none) = some (0 ∷ [])
to_string (ControlMessage.ws_close id code (some reason)) = some (1 ∷ [])
to_string msg = none

unfoldable from_str : Text → Option ControlMessage
from_str (zero ∷ []) = some (ControlMessage.ws_close (uuid 6) (some 1000) none)
from_str (suc zero ∷ []) = some (ControlMessage.ws_close (uuid 6) (some 4000) (some (codes "bye")))
from_str text = none

abbrev json : Json
json = record { to_string = to_string; from_str = from_str }

abbrev socket : Socket
socket = record {
  json = json;
  tunnel_id = codes "demo";
  stream_id = uuid 6;
  agent_sender = 10;
  agent_protocol_version = 2;
  event_tx = 14;
}

abbrev handle : WsStreamHandle
handle = record { tunnel_id = codes "demo"; sender = 14 }

abbrev relay : AppState
relay = record {
  auth_tokens = codes "tok" ∷ [];
  agents = [];
  inflight = [];
  ws_pending = [];
  ws_streams = (uuid 6, handle) ∷ [];
  request_timeout_secs = 60;
}

abbrev session : Session
session = record { json = json; digits = λ n. n ∷ []; out_tx = 10; connection_id = uuid 1 }

abbrev ctx : RuntimeCtx
ctx = record {
  relay_tx = 30;
  local_base = codes "http://127.0.0.1:3000";
  relay_supports_ws = true;
  relay_frame_version = 2;
}

abbrev tables : Tables
tables = record { inflight = []; ws_sessions = (uuid 6, 20) ∷ [] }

abbrev relay_round : WsTunnel.Input → WsTunnel.Round
relay_round input = record { others = []; accepts = λ s p. true; takes = λ m. true; input = input }

abbrev local_round : WsStream.Input → WsStream.Round
local_round input = record { others = []; accepts = λ s p. true; takes = λ m. true; input = input }

-- The client says "hi", hears "yo" and sends one byte.
abbrev client_side : List WsTunnel.Round
client_side =
    relay_round (WsTunnel.Input.from_client (ClientRead.received (Message.text (codes "hi"))))
    ∷ relay_round (WsTunnel.Input.from_relay (some (WsRelayEvent.frame WsOpcode.text (codes "yo"))))
    ∷ relay_round (WsTunnel.Input.from_client (ClientRead.received (Message.binary (7 ∷ []))))
    ∷ []

abbrev local_side : List WsStream.Round
local_side =
    local_round (WsStream.Input.inbound (some (WsInboundEvent.frame WsOpcode.text (codes "hi"))))
    ∷ local_round
        (WsStream.Input.from_local (LocalRead.received (AgentEvents.Message.text (codes "yo"))))
    ∷ local_round (WsStream.Input.inbound (some (WsInboundEvent.frame WsOpcode.binary (7 ∷ []))))
    ∷ []

client_side_open : (socket_loop socket relay client_side).3 ≡ false
unfolding socket_loop
client_side_open = refl

local_side_open : (stream_loop json ctx (uuid 6) tables.ws_sessions local_side).3 ≡ false
unfolding stream_loop
local_side_open = refl

texts : (is_utf8 (codes "hi") ≡ true) × (is_utf8 (codes "yo") ≡ true)
unfolding is_utf8
texts = (refl, refl)

not_a_text : is_utf8 (0xE2 ∷ 0x82 ∷ []) ≡ false
unfolding is_utf8
not_a_text = refl

version_2 : is_supported_protocol_version 2 ≡ true
unfolding is_supported_protocol_version
version_2 = refl

-- What each side reads is what the other side sent.
local_reads :
    LocalLoop.inbound_events local_side
    ≡ ToLocal.received_on 20
        (take_sent json ctx (λ s p. true) 40 tables (socket_loop socket relay client_side).1).1
unfolding take_sent socket_loop lookup text_eq turn handle_binary_message handle_chunk
    decode_chunk_header encode_chunk_frame_with_version to_be_bytes encode_ws_payload
    is_supported_protocol_version kind_of kind_code decode_ws_payload opcode_of opcode_code
local_reads = refl

client_reads :
    WsTunnel.Loop.relay_events client_side
    ≡ ToClient.received_on 14
        (Replies.take_replies session
          (λ s p. true)
          relay
          (stream_loop json ctx (uuid 6) tables.ws_sessions local_side).1).1
unfolding Replies.take_replies Replies.take_one stream_loop lookup text_eq WsSession.turn
    WsSession.handle_binary_message WsSession.handle_chunk notify_ws_frame decode_chunk_header
    encode_chunk_frame_with_version to_be_bytes encode_ws_payload is_supported_protocol_version
    kind_of kind_code decode_ws_payload opcode_of opcode_code
client_reads = refl

client_messages_reach_local_example :
    let out = take_sent json ctx (λ s p. true) 40 tables (socket_loop socket relay client_side).1 in
    (out.0 ≡ tables)
    × ((stream_loop json ctx (uuid 6) tables.ws_sessions local_side).2
        ≡ map read_as (Message.text (codes "hi") ∷ Message.binary (7 ∷ []) ∷ []))
unfolding lookup text_eq
client_messages_reach_local_example =
    client_messages_reach_local socket relay client_side client_side_open (texts.0, (tt, tt)) json
      ctx (λ s p. true) 40 tables 20 version_2 refl refl (λ e. refl) tables.ws_sessions local_side
      local_side_open local_reads

local_messages_reach_client_example :
    let out =
      Replies.take_replies session
        (λ s p. true)
        relay
        (stream_loop json ctx (uuid 6) tables.ws_sessions local_side).1 in
    (out.0 ≡ relay)
    × ((socket_loop socket relay client_side).2
        ≡ seen_as (AgentEvents.Message.text (codes "yo") ∷ []))
unfolding lookup text_eq
local_messages_reach_client_example =
    local_messages_reach_client json ctx (uuid 6) tables.ws_sessions local_side local_side_open
      (texts.1, tt) session (λ s p. true) relay handle version_2 refl refl (λ e. refl) socket relay
      client_side client_side_open client_reads

abbrev bye : Message
bye = Message.close (some (record { code = 4000; reason = codes "bye" }))

client_end_reaches_local_example :
    let close = WsInboundEvent.close (some 4000) (some (codes "bye")) in
    ((client_turn socket (λ s p. true) (ClientRead.received bye)).1 ≡ false)
    × (take_sent json ctx
          (λ s p. true)
          40
          tables
          (client_turn socket (λ s p. true) (ClientRead.received bye)).0
        ≡ (tables, (20, ws_inbound close) ∷ []))
    × (inbound_turn (λ m. true) (some close)
        ≡ (WsStream.put (λ m. true) (AgentEvents.Message.close (some (4000, codes "bye"))), false))
unfolding to_string from_str lookup text_eq
client_end_reaches_local_example =
    client_end_reaches_local socket (λ s p. true) (ClientRead.received bye) 4000
      (some (codes "bye")) refl (1 ∷ [], refl, refl) (λ p. refl) ctx (λ s p. true) 40 tables 20
      (λ m. true) refl (λ e. refl)

local_end_reaches_client_example :
    let read = LocalRead.received (AgentEvents.Message.close none) in
    let close = WsRelayEvent.close (some 1000) none in
    ((WsStream.local_turn json ctx (uuid 6) (λ s p. true) read).1 ≡ false)
    × (Replies.take_replies session
          (λ s p. true)
          relay
          (WsStream.local_turn json ctx (uuid 6) (λ s p. true) read).0
        ≡ (remove_ws_stream relay (uuid 6), (14, ws_event close) ∷ []))
    × (relay_turn (λ m. true) (some close) ≡ (
      WsTunnel.put
          (λ m. true)
          (Message.close (some (record { code = 1000; reason = codes "closed" }))),
      false,
    ))
unfolding to_string from_str lookup text_eq
local_end_reaches_client_example =
    local_end_reaches_client session ctx (uuid 6) (λ s p. true)
      (LocalRead.received (AgentEvents.Message.close none)) 1000 none refl (0 ∷ [], refl, refl)
      (λ p. refl) (λ s p. true) relay handle (λ m. true) refl (λ e. refl)
