-- ===== src/Agent/WsStream.antt =====
-- crates/agent/src/relay_client.rs: a websocket of a client on its way to the local server
-- (`handle_ws_connect`, `run_one_ws_stream`). The websocket library is a parameter.
pub mod Loop
pub mod Connect
pub mod Outcome
mod Examples
use tunely.Prelude.{
  ℕ, Bool, true, false, not, Option, none, some, List, [], ◌∷◌, ◌++◌, if◌then◌else◌, is_empty,
  get_or_else,
}
use tunely.Prelude.Bytes.{Bytes, Text, codes}
use tunely.Prelude.Map.{Map, insert, remove}
use tunely.Prelude.Utf8.{is_utf8}
use tunely.External.{Http}
use tunely.Protocol.Message.{ControlMessage, Json, Uuid, Headers}
use tunely.Protocol.Frame.{
  ChunkHeader, StreamKind, WsOpcode, encode_chunk_frame_with_version, encode_ws_payload,
}
use tunely.Agent.Events.{Message, WsInboundEvent, Sender, Sent, Accepts, send_control, to_relay}
use tunely.Agent.RelayClient.{RuntimeCtx, WsConnectRequest}
use tunely.Agent.LocalProxy.{UrlLib, compose_local_ws_url, should_skip_ws_forward_header}

-- What is on the relay's channel afterwards, and whether the send succeeded.
unfoldable pub send_ws_frame_to_relay :
    Accepts → Sender → ℕ → Uuid → StreamKind → WsOpcode → Bytes → List Sent × Bool
send_ws_frame_to_relay accepts relay_tx protocol_version stream_id kind opcode payload =
    let frame = to_relay (
      Message.binary (
        encode_chunk_frame_with_version protocol_version
          (record { kind = kind; request_id = stream_id; seq = 0; fin = true })
          (encode_ws_payload opcode payload))) in
    if accepts relay_tx frame then ((relay_tx, frame) ∷ [], true) else ([], false)

-- The table `ws_sessions`, and what the other tasks of the connection do to it: streams come and go,
-- and the end of the connection clears it.
abbrev pub Sessions : Type 0
Sessions = Map Sender

pub data SessionOp : Type 0 where
  insert_session : Uuid → Sender → SessionOp
  remove_session : Uuid → SessionOp
  clear_sessions : SessionOp

unfoldable pub apply_op : Sessions → SessionOp → Sessions
apply_op m (insert_session id tx) = insert id tx m
apply_op m (remove_session id) = remove id m
apply_op m clear_sessions = []

unfoldable pub apply_ops : Sessions → List SessionOp → Sessions
unfolding apply_op
apply_ops m [] = m
apply_ops m (op ∷ ops) = apply_ops (apply_op m op) ops

unfoldable pub cleanup_ws_session : Sessions → Uuid → Sessions
cleanup_ws_session m stream_id = remove stream_id m

-- What `local_stream.next()` gives; an error comes with its text.
pub data LocalRead : Type 0 where
  received : Message → LocalRead
  ended : LocalRead
  read_failed : Text → LocalRead

-- What `select!` takes: an event for the stream, where `none` is a closed channel, or a read of the
-- local server.
pub data Input : Type 0 where
  inbound : Option WsInboundEvent → Input
  from_local : LocalRead → Input

-- The local server's socket: whether it takes a message.
abbrev pub Takes : Type 0
Takes = Message → Bool

abbrev pub put : Takes → Message → List Message
put takes m = if takes m then m ∷ [] else []

-- The message for a frame of the relay.
unfoldable pub outgoing : WsOpcode → Bytes → Message
unfolding is_utf8
outgoing WsOpcode.text payload =
    if is_utf8 payload then Message.text payload else Message.close none
outgoing WsOpcode.binary payload = Message.binary payload
outgoing WsOpcode.ping payload = Message.ping payload
outgoing WsOpcode.pong payload = Message.pong payload
outgoing WsOpcode.close payload = Message.close none

-- A code without a reason has an empty one, and a reason without a code is dropped.
unfoldable pub close_frame : Option ℕ → Option Text → Option (ℕ × Text)
close_frame none reason = none
close_frame (some code) reason = some (code, get_or_else reason [])

-- The first branch of `select!`: what the local server gets, and whether the loop goes on.
unfoldable pub inbound_turn : Takes → Option WsInboundEvent → List Message × Bool
unfolding outgoing close_frame
inbound_turn takes none = ([], false)
inbound_turn takes (some (WsInboundEvent.frame opcode payload)) =
    (put takes (outgoing opcode payload), takes (outgoing opcode payload))
inbound_turn takes (some (WsInboundEvent.close code reason)) =
    (put takes (Message.close (close_frame code reason)), false)

module _ (json : Json) (ctx : RuntimeCtx) (stream_id : Uuid) where
  unfoldable pub local_frame : Accepts → WsOpcode → Bytes → List Sent × Bool
  unfolding send_ws_frame_to_relay
  local_frame accepts =
      send_ws_frame_to_relay accepts ctx.relay_tx ctx.relay_frame_version stream_id
        StreamKind.ws_local_frame

  unfoldable pub local_close : Accepts → Option ℕ → Option Text → List Sent × Bool
  local_close accepts code reason = (
    (send_control json accepts ctx.relay_tx (ControlMessage.ws_close stream_id code reason)).0,
    false,
  )

  -- The second branch of `select!`: what is sent to the relay, and whether the loop goes on.
  unfoldable pub local_turn : Accepts → LocalRead → List Sent × Bool
  unfolding local_frame local_close
  local_turn accepts ended = local_close accepts (some 1000) (some (codes "local ws ended"))
  local_turn accepts (received (Message.text text)) = local_frame accepts WsOpcode.text text
  local_turn accepts (received (Message.binary bytes)) = local_frame accepts WsOpcode.binary bytes
  local_turn accepts (received (Message.ping bytes)) = local_frame accepts WsOpcode.ping bytes
  local_turn accepts (received (Message.pong bytes)) = local_frame accepts WsOpcode.pong bytes
  local_turn accepts (received (Message.close (some (code, reason)))) =
      local_close accepts (some code) (some reason)
  local_turn accepts (received (Message.close none)) = local_close accepts (some 1000) none
  local_turn accepts (received (Message.raw_frame bytes)) = ([], true)
  local_turn accepts (read_failed err) =
      local_close accepts (some 1011) (some (codes "local ws read error: " ++ err))

  unfoldable pub turn : Accepts → Takes → Input → List Sent × List Message × Bool
  unfolding local_turn inbound_turn
  turn accepts takes (inbound event) =
      let (shown, more) = inbound_turn takes event in ([], shown, more)
  turn accepts takes (from_local read) =
      let (sent, more) = local_turn accepts read in (sent, [], more)

-- One round of the loop: what other tasks do before it, the channels' and the server's answers, and
-- what it reads.
pub record Round : Type 0 where
  pub others : List SessionOp
  pub accepts : Accepts
  pub takes : Takes
  pub input : Input

-- The loop, over the rounds so far: the table, what went to the relay and to the local server, and
-- whether the loop has ended.
unfoldable pub stream_loop :
    Json → RuntimeCtx → Uuid → Sessions → List Round → Sessions × List Sent × List Message × Bool
unfolding turn apply_ops
stream_loop json ctx id m [] = (m, [], [], false)
stream_loop json ctx id m (r ∷ rs) =
    let m' = apply_ops m r.others in
    let (sent, shown, more) = turn json ctx id r.accepts r.takes r.input in
    let rest = stream_loop json ctx id m' rs in
    if more then (rest.0, sent ++ rest.1, shown ++ rest.2, rest.3) else (m', sent, shown, true)
