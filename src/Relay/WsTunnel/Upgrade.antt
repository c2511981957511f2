-- ===== src/Relay/WsTunnel/Upgrade.antt =====
-- crates/relay-server/src/ws_tunnel.rs: a client's request to open a websocket, `upgrade_client_ws`.
use tunely.Prelude.{ℕ, not, none, some, List, [], map, filter, if◌then◌else◌, is_empty}
use tunely.Prelude.Bytes.{Text, codes, contains}
use tunely.Prelude.Split.{trim, split_commas}
use tunely.External.{Http}
use tunely.Protocol.{cap_ws_tunnel_v1}
use tunely.Protocol.Message.{ControlMessage, Json, Uuid, Headers}
use tunely.Relay.Events.{Sender, Sent, Accepts, send_control}
use tunely.Relay.State.{AppState, get_agent, add_ws_pending, remove_ws_pending}
use tunely.Relay.HttpIngress.{flatten_entries}
use tunely.Relay.WsTunnel.{Socket}

-- What `upgrade_client_ws` answers.
pub data Upgrade : Type 0 where
  -- `simple_response`
  simple : ℕ → Text → Upgrade
  -- the subprotocols that are offered, and the socket that the client's handler gets
  on_upgrade : List Text → Socket → Upgrade

-- The fresh identifier, the acknowledgement's channel, and the channel of the socket's events, which
-- the handler makes.
pub record Fresh : Type 0 where
  pub json : Json
  pub stream_id : Uuid
  pub ack_tx : Sender
  pub event_tx : Sender

module _ (http : Http) where
  open http use {HeaderMap, entries, get, to_str}

  -- The loop is that of `flatten_headers`.
  unfoldable pub flatten_ws_headers : HeaderMap → Headers
  flatten_ws_headers headers = flatten_entries http (entries headers)

  unfoldable pub parse_subprotocols : HeaderMap → List Text
  unfolding trim split_commas
  parse_subprotocols headers = elim (get headers (codes "sec-websocket-protocol")) [
    | none ↦ []
    | some value ↦ elim (to_str value) [
      | none ↦ []
      | some raw ↦ filter (λ token. not (is_empty token)) (map trim (split_commas raw))
    ]
  ]

  unfoldable pub upgrade_client_ws :
      Fresh → Accepts → AppState → Text → Text → HeaderMap → AppState × List Sent × Upgrade
  unfolding flatten_ws_headers parse_subprotocols
  upgrade_client_ws f accepts st tunnel_id path_and_query headers = elim (get_agent st tunnel_id) [
    | none ↦ (st, [], simple 502 (codes "no connected agent for tunnel"))
    | some agent ↦
        if not (contains agent.capabilities cap_ws_tunnel_v1)
        then (st, [], simple 501 (codes "connected agent does not support websocket tunneling"))
        else (let st₁ = add_ws_pending st f.stream_id tunnel_id f.ack_tx in
            let subprotocols = parse_subprotocols headers in
            let (sent, delivered) = send_control f.json accepts agent.sender (
              ControlMessage.ws_connect f.stream_id path_and_query (flatten_ws_headers headers)
                subprotocols) in
            if not delivered
            then (
              remove_ws_pending st₁ f.stream_id,
              sent,
              simple 502 (codes "failed to notify agent about ws connect"),
            )
            else (
              st₁,
              sent,
              on_upgrade subprotocols (record {
                json = f.json;
                tunnel_id = tunnel_id;
                stream_id = f.stream_id;
                agent_sender = agent.sender;
                agent_protocol_version = agent.protocol_version;
                event_tx = f.event_tx;
              }),
            ))
  ]
