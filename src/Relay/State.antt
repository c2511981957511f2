-- ===== src/Relay/State.antt =====
-- crates/relay-server/src/state.rs: the tables that the relay's tasks share, and every operation
-- on them. Each operation is one step: it returns the tables and what it sent.
pub mod TunnelId
pub mod Steps
pub mod Valid
pub mod Requests
pub mod Waiting
pub mod Disconnect
pub mod View
pub mod Updates
pub mod Reports
pub mod Refinement
mod Examples
use tunely.Prelude.{
  ℕ, Bool, true, false, not, ◌&&◌, ◌||◌, Option, none, some, List, [], ◌∷◌, ◌++◌, map, ltb, leb,
  ◌==◌, if◌then◌else◌, length, all, filter, is_empty, is_some,
}
use tunely.Prelude.Bytes.{Bytes, Text, codes, text_eq, contains}
use tunely.Prelude.Map.{Map, lookup, insert, remove, contains_key}
use tunely.Protocol.Message.{Uuid, Headers}
use tunely.Protocol.Frame.{WsOpcode}
use tunely.Relay.Events.{
  RelayEvent, WsConnectAck, WsRelayEvent, Sender, Sent, Accepts, send, relay_event, connect_ack,
  ws_event,
}

pub record AgentHandle : Type 0 where
  pub connection_id : Uuid
  pub sender : Sender
  pub capabilities : List Text
  pub protocol_version : ℕ

pub record WsStreamHandle : Type 0 where
  pub tunnel_id : Text
  pub sender : Sender

pub record WsPending : Type 0 where
  pub tunnel_id : Text
  pub tx : Sender

pub record AppState : Type 0 where
  pub auth_tokens : List Text
  pub agents : Map AgentHandle
  pub inflight : Map Sender
  pub ws_pending : Map WsPending
  pub ws_streams : Map WsStreamHandle
  pub request_timeout_secs : ℕ

-- `AppState::new`
unfoldable pub new : List Text → ℕ → AppState
new auth_tokens request_timeout_secs = record {
  auth_tokens = auth_tokens;
  agents = [];
  inflight = [];
  ws_pending = [];
  ws_streams = [];
  request_timeout_secs = request_timeout_secs;
}

unfoldable pub validate_token : AppState → Text → Bool
validate_token st token = not (is_empty st.auth_tokens) && contains st.auth_tokens token

unfoldable pub insert_agent_if_absent : AppState → Text → AgentHandle → AppState × Bool
insert_agent_if_absent st tunnel_id handle =
    if contains_key tunnel_id st.agents
    then (st, false)
    else (record st { agents = insert tunnel_id handle st.agents }, true)

unfoldable pub get_agent : AppState → Text → Option AgentHandle
get_agent st tunnel_id = lookup tunnel_id st.agents

-- The keys of the entries of a tunnel.
unfoldable pub ids_of {ℓ} : {V : Type ℓ} → (V → Text) → Text → Map V → List Uuid
ids_of tunnel_of tunnel_id entries =
    map (λ e. e.0) (filter (λ e. text_eq (tunnel_of e.1) tunnel_id) entries)

-- One round of the loop of `fail_ws_pending_for_tunnel`.
unfoldable pub fail_ws_pending : Accepts → Text → AppState → Uuid → AppState × List Sent
fail_ws_pending accepts reason st id = elim (lookup id st.ws_pending) [
  | none ↦ (st, [])
  | some pending ↦ (
    record st { ws_pending = remove id st.ws_pending },
    send accepts pending.tx (
        connect_ack
          (record { accepted = false; selected_subprotocol = none; reason = some reason })),
  )
]

-- One round of the loop of `close_ws_for_tunnel`.
unfoldable pub close_ws : Accepts → Option ℕ → Text → AppState → Uuid → AppState × List Sent
close_ws accepts code reason st id = elim (lookup id st.ws_streams) [
  | none ↦ (st, [])
  | some handle ↦ (
    record st { ws_streams = remove id st.ws_streams },
    send accepts handle.sender (ws_event (WsRelayEvent.close code (some reason))),
  )
]

-- `for id in ids`, with what the rounds sent in order.
unfoldable pub for_each :
    (AppState → Uuid → AppState × List Sent) → AppState → List Uuid → AppState × List Sent
for_each round st [] = (st, [])
for_each round st (id ∷ ids) =
    let (st', out) = round st id in let (st'', outs) = for_each round st' ids in (st'', out ++ outs)

unfoldable pub fail_ws_pending_for_tunnel : Accepts → AppState → Text → Text → AppState × List Sent
fail_ws_pending_for_tunnel accepts st tunnel_id reason =
    for_each (fail_ws_pending accepts reason) st (ids_of (λ p. p.tunnel_id) tunnel_id st.ws_pending)

unfoldable pub close_ws_for_tunnel :
    Accepts → AppState → Text → Option ℕ → Text → AppState × List Sent
close_ws_for_tunnel accepts st tunnel_id code reason =
    for_each (close_ws accepts code reason) st (ids_of (λ h. h.tunnel_id) tunnel_id st.ws_streams)

-- `should_remove` of `remove_agent_if`.
unfoldable pub owns : AppState → Text → Uuid → Bool
owns st tunnel_id connection_id = elim (lookup tunnel_id st.agents) [
  | none ↦ false
  | some existing ↦ text_eq existing.connection_id connection_id
]

unfoldable pub remove_agent_if : Accepts → AppState → Text → Uuid → AppState × List Sent
remove_agent_if accepts st tunnel_id connection_id =
    if owns st tunnel_id connection_id
    then (let st₁ = record st { agents = remove tunnel_id st.agents } in
        let (st₂, failed) =
          fail_ws_pending_for_tunnel accepts st₁ tunnel_id (codes "agent disconnected") in
        let (st₃, closed) =
          close_ws_for_tunnel accepts st₂ tunnel_id (some 1011) (codes "agent disconnected") in
        (st₃, failed ++ closed))
    else (st, [])

unfoldable pub add_inflight : AppState → Uuid → Sender → AppState
add_inflight st request_id sender = record st { inflight = insert request_id sender st.inflight }

unfoldable pub remove_inflight : AppState → Uuid → AppState
remove_inflight st request_id = record st { inflight = remove request_id st.inflight }

-- `notify_start` and `notify_body` differ in the event alone: a failed send drops the entry.
unfoldable pub notify_open : Accepts → AppState → Uuid → RelayEvent → AppState × List Sent
notify_open accepts st request_id event = elim (lookup request_id st.inflight) [
  | none ↦ (st, [])
  | some sender ↦
      if accepts sender (relay_event event)
      then (st, (sender, relay_event event) ∷ [])
      else (record st { inflight = remove request_id st.inflight }, [])
]

unfoldable pub notify_start : Accepts → AppState → Uuid → ℕ → Headers → AppState × List Sent
unfolding notify_open
notify_start accepts st request_id status headers =
    notify_open accepts st request_id (RelayEvent.start status headers)

unfoldable pub notify_body : Accepts → AppState → Uuid → Bytes → AppState × List Sent
unfolding notify_open
notify_body accepts st request_id bytes = notify_open accepts st request_id (RelayEvent.body bytes)

-- `notify_end` and `notify_error` take the entry out first.
unfoldable pub notify_last : Accepts → AppState → Uuid → RelayEvent → AppState × List Sent
notify_last accepts st request_id event = elim (lookup request_id st.inflight) [
  | none ↦ (st, [])
  | some sender ↦ (
    record st { inflight = remove request_id st.inflight },
    send accepts sender (relay_event event),
  )
]

unfoldable pub notify_end : Accepts → AppState → Uuid → AppState × List Sent
unfolding notify_last
notify_end accepts st request_id = notify_last accepts st request_id RelayEvent.end

unfoldable pub notify_error : Accepts → AppState → Uuid → Text → Text → AppState × List Sent
unfolding notify_last
notify_error accepts st request_id code message =
    notify_last accepts st request_id (RelayEvent.error code message)

unfoldable pub add_ws_pending : AppState → Uuid → Text → Sender → AppState
add_ws_pending st stream_id tunnel_id tx = record st {
  ws_pending = insert stream_id (record { tunnel_id = tunnel_id; tx = tx }) st.ws_pending;
}

unfoldable pub remove_ws_pending : AppState → Uuid → AppState
remove_ws_pending st stream_id = record st { ws_pending = remove stream_id st.ws_pending }

unfoldable pub notify_ws_connect_ack :
    Accepts → AppState → Uuid → Bool → Option Text → Option Text → AppState × List Sent
notify_ws_connect_ack accepts st stream_id accepted selected_subprotocol reason =
    elim (lookup stream_id st.ws_pending) [
      | none ↦ (st, [])
      | some pending ↦ (
        record st { ws_pending = remove stream_id st.ws_pending },
        send accepts pending.tx (
            connect_ack (record {
              accepted = accepted;
              selected_subprotocol = selected_subprotocol;
              reason = reason;
            })),
      )
    ]

unfoldable pub add_ws_stream : AppState → Uuid → Text → Sender → AppState
add_ws_stream st stream_id tunnel_id sender = record st {
  ws_streams = insert stream_id (record { tunnel_id = tunnel_id; sender = sender }) st.ws_streams;
}

unfoldable pub remove_ws_stream : AppState → Uuid → AppState
remove_ws_stream st stream_id = record st { ws_streams = remove stream_id st.ws_streams }

unfoldable pub notify_ws_frame : Accepts → AppState → Uuid → WsOpcode → Bytes → AppState × List Sent
notify_ws_frame accepts st stream_id opcode payload = elim (lookup stream_id st.ws_streams) [
  | none ↦ (st, [])
  | some handle ↦
      if accepts handle.sender (ws_event (WsRelayEvent.frame opcode payload))
      then (st, (handle.sender, ws_event (WsRelayEvent.frame opcode payload)) ∷ [])
      else (record st { ws_streams = remove stream_id st.ws_streams }, [])
]

unfoldable pub notify_ws_close :
    Accepts → AppState → Uuid → Option ℕ → Option Text → AppState × List Sent
notify_ws_close accepts st stream_id code reason = elim (lookup stream_id st.ws_streams) [
  | none ↦ (st, [])
  | some handle ↦ (
    record st { ws_streams = remove stream_id st.ws_streams },
    send accepts handle.sender (ws_event (WsRelayEvent.close code reason)),
  )
]
