-- ===== src/Relay/WsTunnel.antt =====
-- crates/relay-server/src/ws_tunnel.rs: the websocket of a client, tunnelled to the agent. Logging is
-- left out.
pub mod Upgrade
pub mod Loop
pub mod Release
pub mod Disconnect
mod Examples
use tunely.Prelude.{
  ℕ, Bool, true, false, not, Option, none, some, List, [], ◌∷◌, ◌++◌, map, filter, if◌then◌else◌,
  is_empty, get_or_else,
}
use tunely.Prelude.Bytes.{Bytes, Text, codes, contains}
use tunely.Prelude.Split.{trim, split_commas}
use tunely.Prelude.Utf8.{is_utf8}
use tunely.External.{Http}
use tunely.Protocol.{cap_ws_tunnel_v1}
use tunely.Protocol.Message.{ControlMessage, Json, Uuid, Headers}
use tunely.Protocol.Frame.{
  ChunkHeader, StreamKind, WsOpcode, encode_chunk_frame_with_version, encode_ws_payload,
}
use tunely.Relay.Events.{
  Message, CloseFrame, WsConnectAck, WsRelayEvent, Sender, Sent, Accepts, message, send_control,
}
use tunely.Relay.State.{
  AppState, get_agent, add_ws_pending, remove_ws_pending, add_ws_stream, remove_ws_stream,
}
use tunely.Relay.State.Steps.{Op, run}
use tunely.Relay.HttpIngress.{flatten_entries}

-- What is on the agent's channel afterwards, and whether the send succeeded.
unfoldable pub send_ws_frame :
    Accepts → Sender → Uuid → ℕ → StreamKind → WsOpcode → Bytes → List Sent × Bool
send_ws_frame accepts sender stream_id protocol_version kind opcode payload =
    let frame = message (
      Message.binary (
        encode_chunk_frame_with_version protocol_version
          (record { kind = kind; request_id = stream_id; seq = 0; fin = true })
          (encode_ws_payload opcode payload))) in
    if accepts sender frame then ((sender, frame) ∷ [], true) else ([], false)

-- The arguments of `handle_client_socket` but for its two receivers, with the sender of its events.
pub record Socket : Type 0 where
  pub json : Json
  pub tunnel_id : Text
  pub stream_id : Uuid
  pub agent_sender : Sender
  pub agent_protocol_version : ℕ
  pub event_tx : Sender

-- What `client_rx.next()` gives; an error comes with its text.
pub data ClientRead : Type 0 where
  received : Message → ClientRead
  ended : ClientRead
  read_failed : Text → ClientRead

-- What `select!` takes: a read of the client, or of the events, where `none` is a closed channel.
pub data Input : Type 0 where
  from_client : ClientRead → Input
  from_relay : Option WsRelayEvent → Input

unfoldable pub client_frame : Socket → Accepts → WsOpcode → Bytes → List Sent × Bool
unfolding send_ws_frame
client_frame s accepts =
    send_ws_frame accepts s.agent_sender s.stream_id s.agent_protocol_version
      StreamKind.ws_client_frame

unfoldable pub client_close : Socket → Accepts → Option ℕ → Option Text → List Sent × Bool
client_close s accepts code reason = (
  (send_control s.json accepts s.agent_sender (ControlMessage.ws_close s.stream_id code reason)).0,
  false,
)

-- The first branch of `select!`: what is sent to the agent, and whether the loop goes on.
unfoldable pub client_turn : Socket → Accepts → ClientRead → List Sent × Bool
unfolding client_frame client_close
client_turn s accepts ended =
    client_close s accepts (some 1000) (some (codes "client socket ended"))
client_turn s accepts (received (Message.text text)) = client_frame s accepts WsOpcode.text text
client_turn s accepts (received (Message.binary bytes)) =
    client_frame s accepts WsOpcode.binary bytes
client_turn s accepts (received (Message.ping bytes)) = client_frame s accepts WsOpcode.ping bytes
client_turn s accepts (received (Message.pong bytes)) = client_frame s accepts WsOpcode.pong bytes
client_turn s accepts (received (Message.close (some c))) =
    client_close s accepts (some c.code) (some c.reason)
client_turn s accepts (received (Message.close none)) = client_close s accepts (some 1000) none
client_turn s accepts (read_failed err) =
    client_close s accepts (some 1011) (some (codes "client ws read error: " ++ err))

-- The message for a frame of the agent.
unfoldable pub outgoing : WsOpcode → Bytes → Message
unfolding is_utf8
outgoing WsOpcode.text payload =
    if is_utf8 payload
    then Message.text payload
    else Message.close (some (record { code = 1007; reason = codes "invalid utf8 payload" }))
outgoing WsOpcode.binary payload = Message.binary payload
outgoing WsOpcode.ping payload = Message.ping payload
outgoing WsOpcode.pong payload = Message.pong payload
outgoing WsOpcode.close payload =
    Message.close (some (record { code = 1000; reason = codes "closed by agent" }))

-- The client's socket: whether it takes a message.
abbrev pub Takes : Type 0
Takes = Message → Bool

abbrev pub put : Takes → Message → List Message
put takes m = if takes m then m ∷ [] else []

-- The second branch of `select!`: what the client gets, and whether the loop goes on.
unfoldable pub relay_turn : Takes → Option WsRelayEvent → List Message × Bool
unfolding outgoing
relay_turn takes none = ([], false)
relay_turn takes (some (WsRelayEvent.frame opcode payload)) =
    (put takes (outgoing opcode payload), takes (outgoing opcode payload))
relay_turn takes (some (WsRelayEvent.close code reason)) = (
  put takes (
      Message.close (
        some
          (record { code = get_or_else code 1000; reason = get_or_else reason (codes "closed") }))),
  false,
)

-- One round of the loop: what other tasks do before it, the channels' and the client's answers, and
-- what it reads.
pub record Round : Type 0 where
  pub others : List (Accepts × Op)
  pub accepts : Accepts
  pub takes : Takes
  pub input : Input

unfoldable pub turn : Socket → Accepts → Takes → Input → List Sent × List Message × Bool
unfolding client_turn relay_turn
turn s accepts takes (from_client read) =
    let (sent, more) = client_turn s accepts read in (sent, [], more)
turn s accepts takes (from_relay event) =
    let (shown, more) = relay_turn takes event in ([], shown, more)

-- The loop, over the rounds so far: the tables, what went to the agent and to the client, and whether
-- the loop has ended.
unfoldable pub socket_loop :
    Socket → AppState → List Round → AppState × List Sent × List Message × Bool
unfolding turn
socket_loop s st [] = (st, [], [], false)
socket_loop s st (r ∷ rs) =
    let st' = run st r.others in
    let (sent, shown, more) = turn s r.accepts r.takes r.input in
    let rest = socket_loop s st' rs in
    if more then (rest.0, sent ++ rest.1, shown ++ rest.2, rest.3) else (st', sent, shown, true)

-- What the ten seconds' wait for the acknowledgement gives.
pub data AckRead : Type 0 where
  acked : WsConnectAck → AckRead
  channel_closed timed_out : AckRead

unfoldable pub read_ack : AckRead → WsConnectAck
read_ack (acked ack) = ack
read_ack channel_closed = record {
  accepted = false;
  selected_subprotocol = none;
  reason = some (codes "agent ws connect ack channel closed");
}
read_ack timed_out = record {
  accepted = false;
  selected_subprotocol = none;
  reason = some (codes "agent ws connect timeout");
}

-- The two removals that every way out of `handle_client_socket` ends with.
unfoldable pub release : AppState → Uuid → AppState
release st stream_id = remove_ws_pending (remove_ws_stream st stream_id) stream_id

-- The phases between which other tasks act: the wait for the acknowledgement, and the time from the
-- end of the loop, or from a refusal, to the removals.
pub record Phases : Type 0 where
  pub waiting : List (Accepts × Op)
  pub ack : AckRead
  pub refused_takes : Takes
  pub rounds : List Round
  pub closing : List (Accepts × Op)

-- The tables, what went to the agent and to the client, and whether the function has returned.
unfoldable pub handle_client_socket :
    Socket → AppState → Phases → AppState × List Sent × List Message × Bool
unfolding read_ack socket_loop release
handle_client_socket s st p =
    let st₁ = run (add_ws_stream st s.stream_id s.tunnel_id s.event_tx) p.waiting in
    let ack = read_ack p.ack in
    let (st₂, sent, shown, over) = socket_loop s st₁ p.rounds in
    if not ack.accepted
    then (
      release (run st₁ p.closing) s.stream_id,
      [],
      put p.refused_takes (
          Message.close (
            some (record {
              code = 1011;
              reason = get_or_else ack.reason (codes "agent rejected ws connect");
            }))),
      true,
    )
    else if over
    then (release (run st₂ p.closing) s.stream_id, sent, shown, true)
    else (st₂, sent, shown, false)
