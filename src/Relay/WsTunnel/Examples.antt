-- ===== src/Relay/WsTunnel/Examples.antt =====
-- The socket of a client of crates/relay-server/src/ws_tunnel.rs at concrete values.
use mathlib.Core.List.{Mem}
use tunely.Prelude.{◌≡◌, refl, true, false, none, some, [], ◌∷◌}
use tunely.Prelude.Bytes.{codes, uuid, text_eq}
use tunely.Prelude.Map.{lookup}
use tunely.Prelude.Split.{trim, trim_start, trim_end, space_len, split_commas}
use tunely.External.{plain_http}
use tunely.Protocol.{cap_ws_tunnel_v1}
use tunely.Protocol.Message.{Json}
use tunely.Relay.Events.{Message, WsRelayEvent, ws_event}
use tunely.Relay.State.{AppState, AgentHandle, WsStreamHandle, owns, remove_agent_if}
use tunely.Relay.State.Valid.{IsValid}
use tunely.Relay.WsTunnel.{
  Socket, ClientRead, Input, Round, AckRead, Phases, put, relay_turn, handle_client_socket,
}
use tunely.Relay.WsTunnel.Upgrade.{parse_subprotocols}
use tunely.Relay.WsTunnel.Release.{handle_client_socket_returns}
use tunely.Relay.WsTunnel.Disconnect.{disconnect_reaches_client}

offered_subprotocols :
    parse_subprotocols plain_http ((codes "sec-websocket-protocol", codes "chat, , v2 ") ∷ [])
    ≡ codes "chat" ∷ codes "v2" ∷ []
unfolding parse_subprotocols lookup text_eq trim trim_start trim_end space_len split_commas
offered_subprotocols = refl

abbrev json : Json
json = record { to_string = λ msg. some (codes "{}"); from_str = λ text. none }

abbrev socket : Socket
socket = record {
  json = json;
  tunnel_id = codes "demo";
  stream_id = uuid 6;
  agent_sender = 10;
  agent_protocol_version = 2;
  event_tx = 14;
}

abbrev agent : AgentHandle
agent = record {
  connection_id = uuid 1;
  sender = 10;
  capabilities = cap_ws_tunnel_v1 ∷ [];
  protocol_version = 2;
}

abbrev handle : WsStreamHandle
handle = record { tunnel_id = codes "demo"; sender = 14 }

abbrev relay : AppState
relay = record {
  auth_tokens = codes "tok" ∷ [];
  agents = (codes "demo", agent) ∷ [];
  inflight = [];
  ws_pending = [];
  ws_streams = (uuid 6, handle) ∷ [];
  request_timeout_secs = 60;
}

relay-IsValid : IsValid (codes "tok" ∷ []) relay
unfolding lookup
relay-IsValid = record {
  tokens_kept = refl;
  agents_map = (refl, tt);
  inflight_map = tt;
  pending_map = tt;
  streams_map = (refl, tt);
}

abbrev round : Input → Round
round input = record { others = []; accepts = λ s p. true; takes = λ m. true; input = input }

abbrev hi : Round
hi = round (Input.from_client (ClientRead.received (Message.text (codes "hi"))))

abbrev gone : Round
gone = round (Input.from_client ClientRead.ended)

abbrev phases : Phases
phases = record {
  waiting = [];
  ack = AckRead.acked (record { accepted = true; selected_subprotocol = none; reason = none });
  refused_takes = λ m. true;
  rounds = hi ∷ gone ∷ [];
  closing = [];
}

socket_returns : (handle_client_socket socket relay phases).3 ≡ true
unfolding handle_client_socket
socket_returns = refl

handle_client_socket_returns_example :
    let result = handle_client_socket socket relay phases in
    (result.3 ≡ true)
    × IsValid (codes "tok" ∷ []) result.0
    × (lookup (uuid 6) result.0.ws_streams ≡ none)
    × (lookup (uuid 6) result.0.ws_pending ≡ none)
handle_client_socket_returns_example =
    handle_client_socket_returns (codes "tok" ∷ []) socket relay phases (hi ∷ []) [] gone
      relay-IsValid refl tt

disconnect_reaches_client_example :
    let result = remove_agent_if (λ s p. true) relay (codes "demo") (uuid 1) in
    let close = WsRelayEvent.close (some 1011) (some (codes "agent disconnected")) in
    Mem (14, ws_event close) result.1
    × (lookup (uuid 6) result.0.ws_streams ≡ none)
    × (relay_turn (λ m. true) (some close) ≡ (
      put
          (λ m. true)
          (Message.close (some (record { code = 1011; reason = codes "agent disconnected" }))),
      false,
    ))
unfolding owns lookup text_eq
disconnect_reaches_client_example =
    disconnect_reaches_client (codes "tok" ∷ []) (λ s p. true) relay (codes "demo") (uuid 1)
      (uuid 6) handle (λ m. true) relay-IsValid refl refl refl (λ e. refl)
