-- ===== src/Tunnel/ToClient.antt =====
-- From the local server to the client: `run_one_ws_stream` of crates/agent/src/relay_client.rs sends,
-- and crates/relay-server/src/ws_session.rs and src/ws_tunnel.rs take.
use tunely.Prelude.{
  ◌≡◌, ◌==◌, refl, ap, ◌∙◌, true, false, none, some, List, [], ◌∷◌, map, All, arith, length,
  if◌then◌else◌,
}
use tunely.Prelude.Bytes.{Bytes}
use tunely.Prelude.Map.{lookup}
use tunely.Prelude.Utf8.{is_utf8}
use tunely.Protocol.{is_supported_protocol_version}
use tunely.Protocol.Message.{Json, Uuid}
use tunely.Protocol.Frame.{ChunkHeader, StreamKind, WsOpcode}
use tunely.Agent.Events.{Message}
use tunely.Agent.RelayClient.{RuntimeCtx}
use tunely.Agent.Proxy.Replies.{received_as, take_one, take_replies}
use tunely.Agent.WsStream
use tunely.Agent.WsStream.{Sessions, stream_loop}
use tunely.Agent.WsStream.Loop.{local_messages, frames_of, IsKept, packet, stream_loop-PassedOn}
use tunely.Relay.Events
use tunely.Relay.Events.{WsRelayEvent, Sender, Sent, Accepts, ws_event}
use tunely.Relay.State.{AppState, WsStreamHandle, notify_ws_frame}
use tunely.Relay.WsSession.{Session, turn}
use tunely.Relay.WsSession.Dispatch.{handle_binary_message-ws_local_frame}
use tunely.Relay.WsTunnel.{Socket, Round, socket_loop, outgoing}
use tunely.Relay.WsTunnel.Loop.{relay_events, shown_for, socket_loop-PassedOn}

-- The local server's texts are UTF-8, as those of Rust are.
abbrev pub IsText : Message → Type 0
IsText (Message.text t) = is_utf8 t ≡ true
IsText m = Unit {0}

-- The local server's messages as the client sees them; raw frames are not passed on.
unfoldable pub seen_as : List Message → List Events.Message
seen_as [] = []
seen_as (m ∷ ms) = elim (received_as m) [ none ↦ seen_as ms | some seen ↦ seen ∷ seen_as ms ]

-- The events on a channel.
abbrev pub received_on : Sender → List Sent → List WsRelayEvent
received_on tx [] = []
received_on tx ((s, ws_event e) ∷ out) =
    if s == tx then e ∷ received_on tx out else received_on tx out
received_on tx ((s, p) ∷ out) = received_on tx out

abbrev event_for : WsOpcode × Bytes → WsRelayEvent
event_for f = WsRelayEvent.frame f.0 f.1

module _ (ws : Session) (ok : Accepts) (st : AppState) (id : Uuid) (handle : WsStreamHandle) where
  take_one-packet :
      (ctx : RuntimeCtx)
      → is_supported_protocol_version ctx.relay_frame_version ≡ true
      → length id ≡ 16
      → lookup id st.ws_streams ≡ some handle
      → ((e : WsRelayEvent) → ok handle.sender (ws_event e) ≡ true)
      → (f : WsOpcode × Bytes)
      → take_one ws ok st (packet ctx id f) ≡ (st, (handle.sender, ws_event (event_for f)) ∷ [])
  unfolding take_one turn
  take_one-packet ctx supported l known takes f =
      let header : ChunkHeader = record {
        kind = StreamKind.ws_local_frame;
        request_id = id;
        seq = 0;
        fin = true;
      } in
      rw
        (handle_binary_message-ws_local_frame ok st ctx.relay_frame_version header f.0 f.1 supported
          (record { id_length = l; seq_bound = omega arith }) refl)
        (unfold notify_ws_frame in rw (known, notify_ws_frame) (rw (takes (event_for f))))

  take_replies-packets :
      (ctx : RuntimeCtx)
      → is_supported_protocol_version ctx.relay_frame_version ≡ true
      → length id ≡ 16
      → lookup id st.ws_streams ≡ some handle
      → ((e : WsRelayEvent) → ok handle.sender (ws_event e) ≡ true)
      → (fs : List (WsOpcode × Bytes))
      → take_replies ws ok st (map (packet ctx id) fs)
        ≡ (st, map (λ f. (handle.sender, ws_event (event_for f))) fs)
  unfolding take_replies
  take_replies-packets ctx supported l known takes [] = refl
  take_replies-packets ctx supported l known takes (f ∷ fs) =
      rw (take_one-packet ctx supported l known takes f)
        (rw (take_replies-packets ctx supported l known takes fs))

received_on-map :
    (tx : Sender) (fs : List (WsOpcode × Bytes))
    → received_on tx (map (λ f. (tx, ws_event (event_for f))) fs) ≡ map event_for fs
received_on-map tx [] = refl
received_on-map tx (f ∷ fs) = ground (arith, received_on-map tx fs)

shown_for-events :
    (ms : List Message)
    → All IsKept ms
    → All IsText ms
    → map shown_for (map event_for (frames_of ms)) ≡ seen_as ms
unfolding outgoing seen_as received_as
shown_for-events [] kept texts = refl
shown_for-events (Message.text t ∷ ms) kept texts =
    rw texts.0 (rw (shown_for-events ms kept.1 texts.1))
shown_for-events (Message.binary b ∷ ms) kept texts = rw (shown_for-events ms kept.1 texts.1)
shown_for-events (Message.ping b ∷ ms) kept texts = rw (shown_for-events ms kept.1 texts.1)
shown_for-events (Message.pong b ∷ ms) kept texts = rw (shown_for-events ms kept.1 texts.1)
shown_for-events (Message.raw_frame b ∷ ms) kept texts = shown_for-events ms kept.1 texts.1
shown_for-events (Message.close c ∷ ms) kept texts = absurd kept.0

-- Every message of the local server reaches the client, in order and unchanged but for raw frames,
-- which are dropped, as long as the loops at both ends go on, whatever else they and the other tasks
-- do in between: if the relay has the stream in its table, its channel is open, the client's socket
-- reads exactly what is on that channel, the agent uses a supported version, the identifier has 16
-- bytes, and the server's texts are UTF-8. The relay's tables stay as they are.
pub local_messages_reach_client :
    (json : Json) (ctx : RuntimeCtx) (id : Uuid) (m : Sessions) (rounds : List WsStream.Round)
    → (stream_loop json ctx id m rounds).3 ≡ false
    → All IsText (local_messages rounds)
    → (ws : Session) (ok : Accepts) (st : AppState) (handle : WsStreamHandle)
    → is_supported_protocol_version ctx.relay_frame_version ≡ true
    → length id ≡ 16
    → lookup id st.ws_streams ≡ some handle
    → ((e : WsRelayEvent) → ok handle.sender (ws_event e) ≡ true)
    → (s : Socket) (later : AppState) (client_rounds : List Round)
    → (socket_loop s later client_rounds).3 ≡ false
    → relay_events client_rounds
      ≡ received_on handle.sender (take_replies ws ok st (stream_loop json ctx id m rounds).1).1
    → ((take_replies ws ok st (stream_loop json ctx id m rounds).1).0 ≡ st)
      × ((socket_loop s later client_rounds).2 ≡ seen_as (local_messages rounds))
local_messages_reach_client json ctx id m rounds open_there texts ws ok st handle supported l known
      takes s later client_rounds open_here reads =
    let given = stream_loop-PassedOn json ctx id m rounds open_there in
    let relayed = socket_loop-PassedOn s later client_rounds open_here in
    let frames = frames_of (local_messages rounds) in
    let taken : take_replies ws ok st (stream_loop json ctx id m rounds).1
        ≡ (st, map (λ f. (handle.sender, ws_event (event_for f))) frames) =
      rw given.to_relay
        (take_replies-packets ws ok st id handle ctx supported l known takes frames) in
    let events : relay_events client_rounds ≡ map event_for frames =
      reads
      ∙ ap (λ (r : AppState × List Sent). received_on handle.sender r.1) taken
      ∙ received_on-map handle.sender frames in
    (
      ap (λ (r : AppState × List Sent). r.0) taken,
      relayed.to_client
          ∙ ap (map shown_for) events
          ∙ shown_for-events (local_messages rounds) given.kept texts,
    )
