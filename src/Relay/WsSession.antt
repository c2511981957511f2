-- ===== src/Relay/WsSession.antt =====
-- crates/relay-server/src/ws_session.rs: the session of one agent, from its first message to the
-- end of its websocket. Logging is left out: what the session sends is the list of packets that
-- its channels took, and the writer task moves those of one channel to the socket.
pub mod Register
pub mod Dispatch
pub mod Ownership
pub mod Tables
mod Examples
use tunely.Prelude.{
  ℕ, Bool, true, false, not, Option, none, some, List, [], ◌∷◌, ◌++◌, if◌then◌else◌, get_or_else,
  take,
}
use tunely.Prelude.Bytes.{Bytes, Text, codes}
use tunely.Protocol.{
  protocol_version, legacy_protocol_version, is_supported_protocol_version, cap_ws_tunnel_v1,
}
use tunely.Protocol.Message.{ControlMessage, Json, Uuid}
use tunely.Protocol.Frame.{
  ChunkHeader, StreamKind, Result, ok, err, decode_chunk_header, decode_ws_payload,
}
use tunely.Relay.Events.{Message, Sender, Sent, Accepts, send, message, send_control}
use tunely.Relay.State.{
  AppState, AgentHandle, validate_token, insert_agent_if_absent, remove_agent_if, notify_start,
  notify_body, notify_end, notify_error, notify_ws_connect_ack, notify_ws_frame, notify_ws_close,
}
use tunely.Relay.State.TunnelId.{is_valid_tunnel_id}
use tunely.Relay.State.Steps.{Op, run}

-- The writer task: the messages that it takes from the channel, each with whether the socket takes
-- it, and what goes out.
unfoldable pub writer_task : List (Message × Bool) → List Message
writer_task [] = []
writer_task ((msg, takes) ∷ messages) =
    let sent = writer_task messages in if takes then msg ∷ sent else []

-- The messages on the session's channel, each with whether the socket takes it.
unfoldable pub queued : (Message → Bool) → List Sent → List (Message × Bool)
queued socket [] = []
queued socket ((s, message msg) ∷ out) = (msg, socket msg) ∷ queued socket out
queued socket (e ∷ out) = queued socket out

-- What goes out of what registration put on the session's channel. A registration that takes no tunnel
-- ends with `writer_task.abort()`, so of the messages on the channel only the first few go out, those
-- that the writer task took before the abort.
unfoldable pub register_written : ℕ → (Message → Bool) → List Sent → Option Text → List Message
unfolding writer_task queued
register_written taken_first socket out (some tunnel_id) = writer_task (queued socket out)
register_written taken_first socket out none = writer_task (take taken_first (queued socket out))

-- What `ws_receiver.next()` gives under the ten second limit.
pub data FirstRead : Type 0 where
  received : Message → FirstRead
  failed ended timed_out : FirstRead

unfoldable pub read_register_message : Json → FirstRead → Option ControlMessage
read_register_message json (received (Message.text text)) = json.from_str text
read_register_message json (received msg) = none
read_register_message json failed = none
read_register_message json ended = none
read_register_message json timed_out = none

unfoldable pub relay_capabilities : List Text
relay_capabilities = cap_ws_tunnel_v1 ∷ []

unfoldable pub ack : Bool → Option Text → ControlMessage
unfolding relay_capabilities
ack accepted reason =
    ControlMessage.register_ack accepted reason (some protocol_version) relay_capabilities

-- The text of `unsupported protocol_version: {n}`, with the decimal digits of a `u8`.
unfoldable pub unsupported : (ℕ → Text) → ℕ → Text
unsupported digits version = codes "unsupported protocol_version: " ++ digits version

-- What registration needs from outside: JSON, the digits of a number, the channels' answers, the
-- session's own channel and the fresh `connection_id`.
pub record Session : Type 0 where
  pub json : Json
  pub digits : ℕ → Text
  pub out_tx : Sender
  pub connection_id : Uuid

-- A refused registration: the tables as they were, the answer on the channel, and no tunnel. The abort
-- of the writer task that follows is in `register_written`.
unfoldable pub refuse : Session → Accepts → AppState → Text → AppState × List Sent × Option Text
unfolding ack
refuse s accepts st reason =
    (st, (send_control s.json accepts s.out_tx (ack false (some reason))).0, none)

-- The last part of registration, on the tables.
unfoldable pub admit :
    Session → Accepts → AppState → Text → AgentHandle → AppState × List Sent × Option Text
unfolding refuse ack
admit s accepts st tunnel_id handle =
    let (st', inserted) = insert_agent_if_absent st tunnel_id handle in
    if not inserted
    then refuse s accepts st' (codes "tunnel_id already in use")
    else (st', (send_control s.json accepts s.out_tx (ack true none)).0, some tunnel_id)

-- `handle_socket` up to its loop: the tables, what was put on the channel, and the tunnel that was
-- taken. What of it goes out on the socket is `register_written`.
unfoldable pub register :
    Session → Accepts → AppState → ControlMessage → AppState × List Sent × Option Text
unfolding refuse unsupported admit
register s accepts st
      (ControlMessage.register_agent tunnel_id token protocol_version capabilities) =
    let peer = get_or_else protocol_version legacy_protocol_version in
    if not (is_supported_protocol_version peer)
    then refuse s accepts st (unsupported s.digits peer)
    else if not (is_valid_tunnel_id tunnel_id)
    then refuse s accepts st (codes "invalid tunnel_id format")
    else if not (validate_token st token)
    then refuse s accepts st (codes "invalid token")
    else admit s accepts st tunnel_id (record {
      connection_id = s.connection_id;
      sender = s.out_tx;
      capabilities = capabilities;
      protocol_version = peer;
    })
register s accepts st msg = refuse s accepts st (codes "first message must be register_agent")

-- The `match` of `handle_text_message`.
unfoldable pub handle_control :
    Json → Accepts → AppState → Sender → ControlMessage → AppState × List Sent
handle_control json accepts st out_tx
      (ControlMessage.http_response_start request_id status headers) =
    notify_start accepts st request_id status headers
handle_control json accepts st out_tx (ControlMessage.http_response_end request_id) =
    notify_end accepts st request_id
handle_control json accepts st out_tx
      (ControlMessage.ws_connect_ack stream_id accepted selected reason) =
    notify_ws_connect_ack accepts st stream_id accepted selected reason
handle_control json accepts st out_tx (ControlMessage.ws_close stream_id code reason) =
    notify_ws_close accepts st stream_id code reason
handle_control json accepts st out_tx (ControlMessage.error (some request_id) code msg) =
    notify_error accepts st request_id code msg
handle_control json accepts st out_tx (ControlMessage.ping ts_ms) =
    (st, (send_control json accepts out_tx (ControlMessage.pong ts_ms)).0)
handle_control json accepts st out_tx other = (st, [])

-- The last component is false where a handler returns an error, which the loop only logs.
unfoldable pub handle_text_message :
    Json → Accepts → AppState → Sender → Text → AppState × List Sent × Bool
handle_text_message json accepts st out_tx text = elim (json.from_str text) [
  | none ↦ (st, [], false)
  | some msg ↦ let (st', out) = handle_control json accepts st out_tx msg in (st', out, true)
]

-- `handle_binary_message` once the header is decoded.
unfoldable pub handle_chunk :
    Accepts → AppState → ChunkHeader → StreamKind → Bytes → AppState × List Sent × Bool
handle_chunk accepts st header StreamKind.response_body payload =
    let (st₁, sent) = notify_body accepts st header.request_id payload in
    let (st₂, last) = notify_end accepts st₁ header.request_id in
    if header.fin then (st₂, sent ++ last, true) else (st₁, sent, true)
handle_chunk accepts st header StreamKind.request_body payload = (st, [], true)
handle_chunk accepts st header StreamKind.ws_local_frame payload =
    elim (decode_ws_payload payload) [
      | ok (opcode, bytes) ↦
          let (st', out) = notify_ws_frame accepts st header.request_id opcode bytes in
          (st', out, true)
      | err e ↦ (st, [], false)
    ]
handle_chunk accepts st header StreamKind.ws_client_frame payload = (st, [], true)

unfoldable pub handle_binary_message : Accepts → AppState → Bytes → AppState × List Sent × Bool
handle_binary_message accepts st bytes = elim (decode_chunk_header bytes) [
  | ok (header, payload) ↦ handle_chunk accepts st header header.kind payload
  | err e ↦ (st, [], false)
]

-- What `ws_receiver.next()` gives to the loop; the end of the list is the end of the stream.
pub data Incoming : Type 0 where
  received : Message → Incoming
  failed : Incoming

-- A round of the loop: what other tasks did to the tables before it, and the channels' answers.
pub record Round : Type 0 where
  pub others : List (Accepts × Op)
  pub accepts : Accepts
  pub incoming : Incoming

-- One turn of the loop, and whether the loop goes on.
unfoldable pub turn : Session → Accepts → AppState → Incoming → AppState × List Sent × Bool
turn s accepts st (received (Message.text text)) =
    let (st', out, _) = handle_text_message s.json accepts st s.out_tx text in (st', out, true)
turn s accepts st (received (Message.binary bytes)) =
    let (st', out, _) = handle_binary_message accepts st bytes in (st', out, true)
turn s accepts st (received (Message.ping payload)) =
    (st, send accepts s.out_tx (message (Message.pong payload)), true)
turn s accepts st (received (Message.pong payload)) = (st, [], true)
turn s accepts st (received (Message.close frame)) = (st, [], false)
turn s accepts st failed = (st, [], false)

unfoldable pub session_loop : Session → AppState → List Round → AppState × List Sent
session_loop s st [] = (st, [])
session_loop s st (r ∷ rs) =
    let (st', out, more) = turn s r.accepts (run st r.others) r.incoming in
    let rest = session_loop s st' rs in if more then (rest.0, out ++ rest.1) else (st', out)

-- `handle_socket`: registration, the loop, what other tasks did after it, and the removal, with the
-- channels' answers in the first and in the last.
unfoldable pub handle_socket :
    Session
    → Accepts
    → FirstRead
    → AppState
    → List Round
    → List (Accepts × Op)
    → Accepts
    → AppState × List Sent
handle_socket s accepts first st rounds others closing = elim (read_register_message s.json first) [
  | none ↦ (st, [])
  | some msg ↦
      let (st₁, out₁, taken) = register s accepts st msg in
      elim taken [
        | none ↦ (st₁, out₁)
        | some tunnel_id ↦
            let (st₂, out₂) = session_loop s st₁ rounds in
            let (st₃, out₃) = remove_agent_if closing (run st₂ others) tunnel_id s.connection_id in
            (st₃, out₁ ++ out₂ ++ out₃)
      ]
]
