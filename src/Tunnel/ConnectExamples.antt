-- ===== src/Tunnel/ConnectExamples.antt =====
-- The opening of a websocket at concrete values.
use tunely.Prelude.{drop, ◌++◌, ◌≡◌, refl, zero, suc, true, Option, none, some, [], ◌∷◌}
use tunely.Prelude.Bytes.{Text, codes, uuid, text_eq, lower}
use tunely.Prelude.Map.{lookup}
use tunely.Prelude.Split.{trim, trim_start, trim_end, space_len, split_commas}
use tunely.External.{plain_http}
use tunely.Protocol.{cap_ws_tunnel_v1}
use tunely.Protocol.Http.{is_hop_header}
use tunely.Protocol.Message.{ControlMessage, Json}
use tunely.Agent.LocalProxy.{
  UrlLib, compose_local_ws_url, trim_start_slashes, compose_local_url, ends_with_slash,
}
use tunely.Agent.WsStream.Connect as Stream
use tunely.Agent.WsStream.Connect.{WsLib, Phases}
use tunely.Agent.RelayClient.{RuntimeCtx, Tables, WsConnectRequest, handle_ws_connect}
use tunely.Agent.Proxy.Replies.{take_replies}
use tunely.Relay.Events.{WsConnectAck, connect_ack}
use tunely.Relay.State.{AppState, AgentHandle, get_agent, remove_ws_pending}
use tunely.Relay.WsSession.{Session}
use tunely.Relay.HttpIngress.{flatten_entries}
use tunely.Relay.WsTunnel.Upgrade.{
  Fresh, on_upgrade, flatten_ws_headers, parse_subprotocols, upgrade_client_ws,
}
use tunely.Exchange.Request.{take_sent}
use tunely.Tunnel.Connect.{socket_for, websocket_opens}

unfoldable to_string : ControlMessage → Option Text
to_string (ControlMessage.ws_connect id path headers subprotocols) = some (0 ∷ [])
to_string (ControlMessage.ws_connect_ack id accepted selected reason) = some (1 ∷ [])
to_string msg = none

unfoldable from_str : Text → Option ControlMessage
from_str (zero ∷ []) = some (
    ControlMessage.ws_connect (uuid 6) (codes "/ws")
      ((codes "sec-websocket-protocol", codes "chat, v2") ∷ []) (codes "chat" ∷ codes "v2" ∷ []))
from_str (suc zero ∷ []) =
    some (ControlMessage.ws_connect_ack (uuid 6) true (some (codes "chat")) none)
from_str text = none

abbrev json : Json
json = record { to_string = to_string; from_str = from_str }

abbrev fresh : Fresh
fresh = record { json = json; stream_id = uuid 6; ack_tx = 13; event_tx = 14 }

abbrev agent : AgentHandle
agent = record {
  connection_id = uuid 1;
  sender = 10;
  capabilities = cap_ws_tunnel_v1 ∷ [];
  protocol_version = 2;
}

abbrev st : AppState
st = record {
  auth_tokens = [];
  agents = (codes "demo", agent) ∷ [];
  inflight = [];
  ws_pending = [];
  ws_streams = [];
  request_timeout_secs = 60;
}

abbrev session : Session
session = record { json = json; digits = λ n. n ∷ []; out_tx = 10; connection_id = uuid 1 }

abbrev ctx : RuntimeCtx
ctx = record {
  relay_tx = 30;
  local_base = codes "http://127.0.0.1:3000";
  relay_supports_ws = true;
  relay_frame_version = 2;
}

abbrev tables : Tables
tables = record { inflight = []; ws_sessions = [] }

abbrev headers : plain_http.HeaderMap
headers =
    (codes "host", codes "x")
    ∷ (codes "upgrade", codes "websocket")
    ∷ (codes "sec-websocket-protocol", codes "chat, v2")
    ∷ []

-- A local server that chooses the first subprotocol.
abbrev plain_url : UrlLib
plain_url = record {
  Url = Text;
  parse = λ t. some t;
  join = λ b t. some (b ++ t);
  scheme = λ u. codes "http";
  set_scheme = λ u x. some (x ++ drop 4 u);
}

abbrev serving : WsLib plain_http plain_url
serving = record {
  ClientRequest = Text;
  into_client_request = λ u. Stream.ok u;
  connect_async = λ r hs p. Stream.ok ((codes "sec-websocket-protocol", codes "chat") ∷ []);
}

abbrev phases : Phases plain_http plain_url
phases = record {
  in_tx = 21;
  bad_address = codes "bad address";
  ack_accepts = λ s p. true;
  refusal_accepts = λ s p. true;
  before = [];
  rounds = [];
  closing = [];
}

abbrev request : WsConnectRequest
request = record {
  stream_id = uuid 6;
  path_and_query = codes "/ws";
  headers = (codes "sec-websocket-protocol", codes "chat, v2") ∷ [];
  subprotocols = codes "chat" ∷ codes "v2" ∷ [];
}

abbrev opened_ack : WsConnectAck
opened_ack = record { accepted = true; selected_subprotocol = some (codes "chat"); reason = none }

websocket_opens_example :
    let r =
      upgrade_client_ws plain_http fresh (λ s p. true) st (codes "demo") (codes "/ws") headers in
    let task = Stream.handle_ws_connect plain_http plain_url serving json ctx phases [] request in
    (r.2 ≡ on_upgrade (codes "chat" ∷ codes "v2" ∷ []) (socket_for fresh (codes "demo") agent))
    × (take_sent json ctx (λ s p. true) 20 tables r.1
        ≡ (tables, [], handle_ws_connect request ∷ []))
    × (lookup (uuid 6) task.0 ≡ some 21)
    × (task.3 ≡ none)
    × (take_replies session (λ s p. true) r.0 task.1
        ≡ (remove_ws_pending r.0 (uuid 6), (13, connect_ack opened_ack) ∷ []))
unfolding get_agent lookup text_eq to_string from_str flatten_ws_headers flatten_entries
    is_hop_header lower parse_subprotocols trim trim_start trim_end space_len split_commas
    compose_local_ws_url trim_start_slashes compose_local_url ends_with_slash
websocket_opens_example =
    websocket_opens plain_http fresh (λ s p. true) st (codes "demo") (codes "/ws") headers agent
      refl refl (λ p. refl) (0 ∷ [], refl, refl) ctx (λ s p. true) 20 tables refl plain_url session
      (λ s p. true) phases serving [] ((codes "sec-websocket-protocol", codes "chat") ∷ [])
      (λ p. refl) refl
      (codes "ws://127.0.0.1:3000/ws", codes "ws://127.0.0.1:3000/ws", refl, refl, refl)
      (1 ∷ [], refl, refl) refl
