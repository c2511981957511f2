-- ===== src/Agent/RelayClient.antt =====
-- crates/agent/src/relay_client.rs: the handlers of the messages that come from the relay, over the
-- table of requests (src/inflight.rs) and the table of websocket sessions.
pub mod Upload
use tunely.Prelude.{
  ℕ, Bool, true, false, not, Option, none, some, List, [], ◌∷◌, ◌++◌, if◌then◌else◌,
}
use tunely.Prelude.Bytes.{Bytes, Text, codes}
use tunely.Prelude.Map.{Map, lookup, insert, remove}
use tunely.Protocol.Message.{ControlMessage, Headers, Json, Uuid}
use tunely.Protocol.Frame.{
  ChunkHeader, StreamKind, Result, ok, err, decode_chunk_header, decode_ws_payload,
}
use tunely.Agent.Events.{
  Message, WsInboundEvent, Sender, Sent, Accepts, Inflight, send, send_control, body_chunk,
  ws_inbound, to_relay,
}

pub record RuntimeCtx : Type 0 where
  pub relay_tx : Sender
  pub local_base : Text
  pub relay_supports_ws : Bool
  pub relay_frame_version : ℕ

pub record ProxyRequest : Type 0 where
  pub request_id : Uuid
  pub method : Text
  pub path_and_query : Text
  pub headers : Headers
  pub body_rx : Sender

pub record WsConnectRequest : Type 0 where
  pub stream_id : Uuid
  pub path_and_query : Text
  pub headers : Headers
  pub subprotocols : List Text

-- The tasks that the handlers start.
pub data Spawned : Type 0 where
  proxy_one_request : ProxyRequest → Spawned
  handle_ws_connect : WsConnectRequest → Spawned

-- The tables of one connection.
pub record Tables : Type 0 where
  pub inflight : Inflight
  pub ws_sessions : Map Sender

-- `Inflight::insert`, `get`, `remove` and `clear`
unfoldable pub inflight_insert : Inflight → Uuid → Sender → Inflight
inflight_insert m request_id tx = insert request_id tx m

unfoldable pub inflight_get : Inflight → Uuid → Option Sender
inflight_get m request_id = lookup request_id m

unfoldable pub inflight_remove : Inflight → Uuid → Inflight
inflight_remove m request_id = remove request_id m

unfoldable pub inflight_clear : Inflight → Inflight
inflight_clear m = []

-- The `match` of `handle_text_message`, with the fresh body channel of a new request.
unfoldable pub handle_control :
    Json
    → RuntimeCtx
    → Accepts
    → Tables
    → Sender
    → ControlMessage
    → Tables × List Sent × List Spawned
unfolding inflight_insert inflight_remove
handle_control json ctx accepts t body
      (ControlMessage.http_request_start request_id method path headers) =
    (
      record t { inflight = inflight_insert t.inflight request_id body },
      [],
      proxy_one_request (record {
        request_id = request_id;
        method = method;
        path_and_query = path;
        headers = headers;
        body_rx = body;
      })
          ∷ [],
    )
handle_control json ctx accepts t body (ControlMessage.http_request_end request_id) =
    (record t { inflight = inflight_remove t.inflight request_id }, [], [])
handle_control json ctx accepts t body
      (ControlMessage.ws_connect stream_id path headers subprotocols) =
    if not ctx.relay_supports_ws
    then (
      t,
      (send_control json accepts ctx.relay_tx (
          ControlMessage.ws_connect_ack stream_id false none
            (some (codes "relay does not support websocket tunnel capability")))).0,
      [],
    )
    else (
      t,
      [],
      handle_ws_connect (record {
        stream_id = stream_id;
        path_and_query = path;
        headers = headers;
        subprotocols = subprotocols;
      })
          ∷ [],
    )
handle_control json ctx accepts t body (ControlMessage.ws_close stream_id code reason) =
    elim (lookup stream_id t.ws_sessions) [
      | none ↦ (t, [], [])
      | some sender ↦ (t, send accepts sender (ws_inbound (WsInboundEvent.close code reason)), [])
    ]
handle_control json ctx accepts t body (ControlMessage.ping ts_ms) =
    (t, (send_control json accepts ctx.relay_tx (ControlMessage.pong ts_ms)).0, [])
handle_control json ctx accepts t body (ControlMessage.error (some request_id) code text) =
    (record t { inflight = inflight_remove t.inflight request_id }, [], [])
handle_control json ctx accepts t body msg = (t, [], [])

unfoldable pub handle_text_message :
    Json → RuntimeCtx → Accepts → Tables → Sender → Text → Tables × List Sent × List Spawned
handle_text_message json ctx accepts t body text = elim (json.from_str text) [
  | none ↦ (t, [], [])
  | some msg ↦ handle_control json ctx accepts t body msg
]

-- The `RequestBody` arm before the test of `fin`.
unfoldable pub forward_body : Accepts → Inflight → Uuid → Bytes → Inflight × List Sent
unfolding inflight_get inflight_remove
forward_body accepts m request_id payload = elim (inflight_get m request_id) [
  | none ↦ (m, [])
  | some sender ↦
      if accepts sender (body_chunk payload)
      then (m, (sender, body_chunk payload) ∷ [])
      else (inflight_remove m request_id, [])
]

unfoldable pub handle_chunk :
    Accepts → Tables → ChunkHeader → StreamKind → Bytes → Tables × List Sent
unfolding forward_body
handle_chunk accepts t header StreamKind.request_body payload =
    let (m, out) = forward_body accepts t.inflight header.request_id payload in
    (record t { inflight = if header.fin then inflight_remove m header.request_id else m }, out)
handle_chunk accepts t header StreamKind.ws_client_frame payload =
    elim (decode_ws_payload payload) [
      | err e ↦ (t, [])
      | ok (opcode, bytes) ↦ elim (lookup header.request_id t.ws_sessions) [
        | none ↦ (t, [])
        | some sender ↦ (t, send accepts sender (ws_inbound (WsInboundEvent.frame opcode bytes)))
      ]
    ]
handle_chunk accepts t header StreamKind.response_body payload = (t, [])
handle_chunk accepts t header StreamKind.ws_local_frame payload = (t, [])

unfoldable pub handle_binary_message : Accepts → Tables → Bytes → Tables × List Sent
handle_binary_message accepts t bytes = elim (decode_chunk_header bytes) [
  | ok (header, payload) ↦ handle_chunk accepts t header header.kind payload
  | err e ↦ (t, [])
]

-- One turn of the loop of `run_once`: the tables, what was sent, the tasks that were started, and
-- whether the loop goes on.
unfoldable pub turn :
    Json
    → RuntimeCtx
    → Accepts
    → Tables
    → Sender
    → Message
    → Tables × List Sent × List Spawned × Bool
turn json ctx accepts t body (Message.text text) =
    let (t', out, tasks) = handle_text_message json ctx accepts t body text in
    (t', out, tasks, true)
turn json ctx accepts t body (Message.binary bytes) =
    let (t', out) = handle_binary_message accepts t bytes in (t', out, [], true)
turn json ctx accepts t body (Message.ping payload) =
    (t, send accepts ctx.relay_tx (to_relay (Message.pong payload)), [], true)
turn json ctx accepts t body (Message.pong payload) = (t, [], [], true)
turn json ctx accepts t body (Message.close frame) = (t, [], [], false)
turn json ctx accepts t body (Message.raw_frame bytes) = (t, [], [], true)
