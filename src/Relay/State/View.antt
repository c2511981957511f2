-- ===== src/Relay/State/View.antt =====
-- crates/relay-server/src/state.rs: the tables as functions from identifiers, which forget how a table
-- holds its entries and in what order, and each operation as a change of such functions.
use tunely.Prelude.{Bool, false, Option, none, some, List, [], ◌∷◌, if◌then◌else◌, is_some}
use tunely.Prelude.Bytes.{Text, text_eq}
use tunely.Prelude.Map.{lookup}
use tunely.Protocol.Message.{Uuid}
use tunely.Relay.Events.{
  RelayEvent, WsRelayEvent, Sender, Sent, Accepts, send, relay_event, connect_ack, ws_event,
}
use tunely.Relay.State.{AppState, AgentHandle, WsPending, WsStreamHandle}
use tunely.Relay.State.Steps.{Op}

pub record View : Type 0 where
  pub agents : Text → Option AgentHandle
  pub inflight : Uuid → Option Sender
  pub pending : Uuid → Option WsPending
  pub streams : Uuid → Option WsStreamHandle

abbrev pub view : AppState → View
view st = record {
  agents = λ t. lookup t st.agents;
  inflight = λ r. lookup r st.inflight;
  pending = λ i. lookup i st.ws_pending;
  streams = λ i. lookup i st.ws_streams;
}

abbrev pub no_entries : View
no_entries = record {
  agents = λ t. none;
  inflight = λ r. none;
  pending = λ i. none;
  streams = λ i. none;
}

module _ {ℓ} {V : Type ℓ} where
  -- A function, changed at one key.
  abbrev pub update : (Text → Option V) → Text → Option V → Text → Option V
  update f key new asked = if text_eq key asked then new else f asked

  -- A function without the entries of a tunnel.
  abbrev pub without : (V → Text) → Text → (Text → Option V) → Text → Option V
  without tunnel_of t f asked = elim (f asked) [
    | none ↦ none
    | some v ↦ if text_eq (tunnel_of v) t then none else some v
  ]

-- The connection holds the tunnel.
abbrev pub holds : View → Text → Uuid → Bool
holds v t c = elim (v.agents t) [ none ↦ false | some h ↦ text_eq h.connection_id c ]

-- An event for a request: whether its channel takes it, and the request's entry after it.
abbrev pub reported : Accepts → View → Uuid → RelayEvent → List Sent
reported ok v r e = elim (v.inflight r) [ none ↦ [] | some tx ↦ send ok tx (relay_event e) ]

-- What an operation makes of the tables.
unfoldable pub effect : Accepts → View → Op → View
effect ok v (Op.insert_agent_if_absent t h) =
    if is_some (v.agents t) then v else record v { agents = update v.agents t (some h) }
effect ok v (Op.remove_agent_if t c) =
    if holds v t c
    then record v {
      agents = update v.agents t none;
      pending = without (λ p. p.tunnel_id) t v.pending;
      streams = without (λ h. h.tunnel_id) t v.streams;
    }
    else v
effect ok v (Op.add_inflight r s) = record v { inflight = update v.inflight r (some s) }
effect ok v (Op.remove_inflight r) = record v { inflight = update v.inflight r none }
effect ok v (Op.notify_start r status headers) = elim (v.inflight r) [
  | none ↦ v
  | some tx ↦
      if ok tx (relay_event (RelayEvent.start status headers))
      then v
      else record v { inflight = update v.inflight r none }
]
effect ok v (Op.notify_body r bytes) = elim (v.inflight r) [
  | none ↦ v
  | some tx ↦
      if ok tx (relay_event (RelayEvent.body bytes))
      then v
      else record v { inflight = update v.inflight r none }
]
effect ok v (Op.notify_end r) = record v { inflight = update v.inflight r none }
effect ok v (Op.notify_error r code text) = record v { inflight = update v.inflight r none }
effect ok v (Op.add_ws_pending i t s) = record v {
  pending = update v.pending i (some (record { tunnel_id = t; tx = s }));
}
effect ok v (Op.remove_ws_pending i) = record v { pending = update v.pending i none }
effect ok v (Op.notify_ws_connect_ack i accepted selected reason) = record v {
  pending = update v.pending i none;
}
effect ok v (Op.add_ws_stream i t s) = record v {
  streams = update v.streams i (some (record { tunnel_id = t; sender = s }));
}
effect ok v (Op.remove_ws_stream i) = record v { streams = update v.streams i none }
effect ok v (Op.notify_ws_frame i opcode payload) = elim (v.streams i) [
  | none ↦ v
  | some h ↦
      if ok h.sender (ws_event (WsRelayEvent.frame opcode payload))
      then v
      else record v { streams = update v.streams i none }
]
effect ok v (Op.notify_ws_close i code reason) = record v { streams = update v.streams i none }

-- What an operation sends; what `remove_agent_if` sends depends on the tables' order.
unfoldable pub sends : Accepts → View → Op → List Sent
sends ok v (Op.notify_start r status headers) = reported ok v r (RelayEvent.start status headers)
sends ok v (Op.notify_body r bytes) = reported ok v r (RelayEvent.body bytes)
sends ok v (Op.notify_end r) = reported ok v r RelayEvent.end
sends ok v (Op.notify_error r code text) = reported ok v r (RelayEvent.error code text)
sends ok v (Op.notify_ws_connect_ack i accepted selected reason) = elim (v.pending i) [
  | none ↦ []
  | some p ↦ send ok p.tx (
      connect_ack
        (record { accepted = accepted; selected_subprotocol = selected; reason = reason }))
]
sends ok v (Op.notify_ws_frame i opcode payload) = elim (v.streams i) [
  | none ↦ []
  | some h ↦ send ok h.sender (ws_event (WsRelayEvent.frame opcode payload))
]
sends ok v (Op.notify_ws_close i code reason) = elim (v.streams i) [
  | none ↦ []
  | some h ↦ send ok h.sender (ws_event (WsRelayEvent.close code reason))
]
sends ok v op = []

-- A history of the functions.
unfoldable pub replay : View → List (Accepts × Op) → View
replay v [] = v
replay v ((ok, op) ∷ ops) = replay (effect ok v op) ops
