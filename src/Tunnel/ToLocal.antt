-- ===== src/Tunnel/ToLocal.antt =====
-- From the client to the local server: crates/relay-server/src/ws_tunnel.rs sends, and the handlers of
-- crates/agent/src/relay_client.rs and its `run_one_ws_stream` take.
use tunely.Prelude.{
  ◌≡◌, ◌==◌, refl, ap, ◌∙◌, true, false, none, some, List, [], ◌∷◌, ◌++◌, map, All, arith, length,
  if◌then◌else◌,
}
use tunely.Prelude.Map.{lookup}
use tunely.Prelude.Utf8.{is_utf8}
use tunely.Protocol.{is_supported_protocol_version}
use tunely.Protocol.Message.{Json}
use tunely.Protocol.Frame.{ChunkHeader, StreamKind}
use tunely.Protocol.Frame.RoundTrip.{decode_chunk_header-encode, decode_ws_payload-encode}
use tunely.Agent.Events.{Message, WsInboundEvent, Sender, Sent, Accepts, ws_inbound}
use tunely.Agent.RelayClient.{RuntimeCtx, Tables, turn, handle_binary_message, handle_chunk}
use tunely.Agent.WsStream
use tunely.Agent.WsStream.{Sessions, stream_loop, outgoing}
use tunely.Agent.WsStream.Loop.{inbound_events, shown_for, stream_loop-PassedOn}
use tunely.Relay.Events
use tunely.Relay.State.{AppState}
use tunely.Relay.WsTunnel.{Socket, Round, socket_loop}
use tunely.Relay.WsTunnel.Loop.{
  client_messages, opcode_of_message, bytes_of_message, IsFrame, packet, socket_loop-PassedOn,
}

-- A message of the relay as the agent's websocket library reads it.
unfoldable pub read_as : Events.Message → Message
read_as (Events.Message.text t) = Message.text t
read_as (Events.Message.binary b) = Message.binary b
read_as (Events.Message.ping b) = Message.ping b
read_as (Events.Message.pong b) = Message.pong b
read_as (Events.Message.close none) = Message.close none
read_as (Events.Message.close (some c)) = Message.close (some (c.code, c.reason))

-- The texts of the client are UTF-8, as those of Rust are.
abbrev pub IsText : Events.Message → Type 0
IsText (Events.Message.text t) = is_utf8 t ≡ true
IsText m = Unit {0}

-- The events on a channel.
abbrev pub received_on : Sender → List Sent → List WsInboundEvent
received_on tx [] = []
received_on tx ((s, ws_inbound e) ∷ out) =
    if s == tx then e ∷ received_on tx out else received_on tx out
received_on tx ((s, p) ∷ out) = received_on tx out

-- The stream's frame event for a message.
abbrev event_for : Events.Message → WsInboundEvent
event_for m = WsInboundEvent.frame (opcode_of_message m) (bytes_of_message m)

module _ (json : Json) (ctx : RuntimeCtx) (ok : Accepts) (body : Sender) where
  unfoldable pub take_one : Tables → Events.Sent → Tables × List Sent
  unfolding read_as
  take_one t (s, Events.message m) =
      let (t', out, _, _) = turn json ctx ok t body (read_as m) in (t', out)
  take_one t (s, p) = (t, [])

  -- The agent handles, in order, what the relay sent.
  unfoldable pub take_sent : Tables → List Events.Sent → Tables × List Sent
  unfolding take_one
  take_sent t [] = (t, [])
  take_sent t (e ∷ es) =
      let (t₁, out₁) = take_one t e in let (t₂, out₂) = take_sent t₁ es in (t₂, out₁ ++ out₂)

  module _ (s : Socket) (t : Tables) (tx : Sender) where
    take_one-packet :
        is_supported_protocol_version s.agent_protocol_version ≡ true
        → length s.stream_id ≡ 16
        → lookup s.stream_id t.ws_sessions ≡ some tx
        → ((e : WsInboundEvent) → ok tx (ws_inbound e) ≡ true)
        → (m : Events.Message) → take_one t (packet s m) ≡ (t, (tx, ws_inbound (event_for m)) ∷ [])
    unfolding take_one turn handle_binary_message handle_chunk
    take_one-packet supported l known takes m =
        let header : ChunkHeader = record {
          kind = StreamKind.ws_client_frame;
          request_id = s.stream_id;
          seq = 0;
          fin = true;
        } in
        rw
          (
            decode_chunk_header-encode s.agent_protocol_version header _ supported
                (record { id_length = l; seq_bound = omega arith }),
            handle_binary_message,
          )
          (rw (decode_ws_payload-encode (opcode_of_message m) (bytes_of_message m), handle_chunk)
            (rw (known, handle_chunk) (rw (takes (event_for m)))))

    take_sent-packets :
        is_supported_protocol_version s.agent_protocol_version ≡ true
        → length s.stream_id ≡ 16
        → lookup s.stream_id t.ws_sessions ≡ some tx
        → ((e : WsInboundEvent) → ok tx (ws_inbound e) ≡ true)
        → (ms : List Events.Message)
        → take_sent t (map (packet s) ms) ≡ (t, map (λ m. (tx, ws_inbound (event_for m))) ms)
    unfolding take_sent turn
    take_sent-packets supported l known takes [] = refl
    take_sent-packets supported l known takes (m ∷ ms) =
        rw (take_one-packet supported l known takes m)
          (rw (take_sent-packets supported l known takes ms))

received_on-map :
    (tx : Sender) (f : Events.Message → WsInboundEvent) (ms : List Events.Message)
    → received_on tx (map (λ m. (tx, ws_inbound (f m))) ms) ≡ map f ms
received_on-map tx f [] = refl
received_on-map tx f (m ∷ ms) = ground (arith, received_on-map tx f ms)

shown_for-event : (m : Events.Message) → IsFrame m → IsText m → shown_for (event_for m) ≡ read_as m
unfolding outgoing read_as
shown_for-event (Events.Message.text t) frame valid = rw valid refl
shown_for-event (Events.Message.binary b) frame valid = refl
shown_for-event (Events.Message.ping b) frame valid = refl
shown_for-event (Events.Message.pong b) frame valid = refl
shown_for-event (Events.Message.close c) frame valid = absurd frame

shown_for-events :
    (ms : List Events.Message)
    → All IsFrame ms
    → All IsText ms
    → map shown_for (map event_for ms) ≡ map read_as ms
shown_for-events [] frames texts = refl
shown_for-events (m ∷ ms) frames texts =
    rw (shown_for-event m frames.0 texts.0) (rw (shown_for-events ms frames.1 texts.1))

-- Every message of a client reaches the local server, in order and unchanged, as long as the loops at
-- both ends go on, whatever else they and the other tasks do in between: if the agent has the stream
-- in its table, its channel is open, the agent's stream reads exactly what is on that channel, the
-- relay uses a supported version, the identifier has 16 bytes, and the client's texts are UTF-8. The
-- agent's tables stay as they are.
pub client_messages_reach_local :
    (s : Socket) (st : AppState) (rounds : List Round)
    → (socket_loop s st rounds).3 ≡ false
    → All IsText (client_messages rounds)
    → (json : Json) (ctx : RuntimeCtx) (ok : Accepts) (body : Sender) (t : Tables) (tx : Sender)
    → is_supported_protocol_version s.agent_protocol_version ≡ true
    → length s.stream_id ≡ 16
    → lookup s.stream_id t.ws_sessions ≡ some tx
    → ((e : WsInboundEvent) → ok tx (ws_inbound e) ≡ true)
    → (m : Sessions) (local_rounds : List WsStream.Round)
    → (stream_loop json ctx s.stream_id m local_rounds).3 ≡ false
    → inbound_events local_rounds
      ≡ received_on tx (take_sent json ctx ok body t (socket_loop s st rounds).1).1
    → ((take_sent json ctx ok body t (socket_loop s st rounds).1).0 ≡ t)
      × ((stream_loop json ctx s.stream_id m local_rounds).2 ≡ map read_as (client_messages rounds))
client_messages_reach_local s st rounds open_here texts json ctx ok body t tx supported l known
      takes m local_rounds open_there reads =
    let relayed = socket_loop-PassedOn s st rounds open_here in
    let given = stream_loop-PassedOn json ctx s.stream_id m local_rounds open_there in
    let taken : take_sent json ctx ok body t (socket_loop s st rounds).1
        ≡ (t, map (λ m. (tx, ws_inbound (event_for m))) (client_messages rounds)) =
      rw relayed.to_agent (
        take_sent-packets json ctx ok body s t tx supported l known takes
          (client_messages rounds)) in
    let events : inbound_events local_rounds ≡ map event_for (client_messages rounds) =
      reads
      ∙ ap (λ (r : Tables × List Sent). received_on tx r.1) taken
      ∙ received_on-map tx event_for (client_messages rounds) in
    (
      ap (λ (r : Tables × List Sent). r.0) taken,
      given.to_local
          ∙ ap (map shown_for) events
          ∙ shown_for-events (client_messages rounds) relayed.frames texts,
    )
