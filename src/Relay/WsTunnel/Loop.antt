-- ===== src/Relay/WsTunnel/Loop.antt =====
-- crates/relay-server/src/ws_tunnel.rs: what the loop of a client's socket passes on.
use mathlib.Core.List.{map-append}
use tunely.Prelude.{
  ◌≡◌, refl, true, false, none, some, List, [], ◌∷◌, ◌++◌, map, All, All-append, arith, Bool-cases,
  inl, inr,
}
use tunely.Prelude.Bytes.{Bytes}
use tunely.Protocol.Frame.{StreamKind, WsOpcode, encode_chunk_frame_with_version, encode_ws_payload}
use tunely.Relay.Events.{Message, WsRelayEvent, Sent, Accepts, message}
use tunely.Relay.State.{AppState}
use tunely.Relay.State.Steps.{run}
use tunely.Relay.WsTunnel.{
  Socket, ClientRead, Input, Round, Takes, outgoing, send_ws_frame, client_frame, client_close,
  client_turn, relay_turn, turn, socket_loop,
}

-- What the client sent, and what the relay's event was, in one round and in some.
abbrev pub message_in : Input → List Message
message_in (Input.from_client (ClientRead.received m)) = m ∷ []
message_in (Input.from_client ClientRead.ended) = []
message_in (Input.from_client (ClientRead.read_failed err)) = []
message_in (Input.from_relay event) = []

abbrev pub event_in : Input → List WsRelayEvent
event_in (Input.from_client read) = []
event_in (Input.from_relay none) = []
event_in (Input.from_relay (some e)) = e ∷ []

abbrev pub client_messages : List Round → List Message
client_messages [] = []
client_messages (r ∷ rs) = message_in r.input ++ client_messages rs

abbrev pub relay_events : List Round → List WsRelayEvent
relay_events [] = []
relay_events (r ∷ rs) = event_in r.input ++ relay_events rs

-- The opcode and the data that stand for a message.
abbrev pub opcode_of_message : Message → WsOpcode
opcode_of_message (Message.text t) = WsOpcode.text
opcode_of_message (Message.binary b) = WsOpcode.binary
opcode_of_message (Message.ping b) = WsOpcode.ping
opcode_of_message (Message.pong b) = WsOpcode.pong
opcode_of_message (Message.close c) = WsOpcode.close

abbrev pub bytes_of_message : Message → Bytes
bytes_of_message (Message.text t) = t
bytes_of_message (Message.binary b) = b
bytes_of_message (Message.ping b) = b
bytes_of_message (Message.pong b) = b
bytes_of_message (Message.close c) = []

-- A message that the loop passes on as a frame.
abbrev pub IsFrame : Message → Type 0
IsFrame (Message.close c) = ⊥
IsFrame m = Unit {0}

abbrev pub packet : Socket → Message → Sent
packet s m = (
  s.agent_sender,
  message (
      Message.binary (
        encode_chunk_frame_with_version s.agent_protocol_version
          (record {
            kind = StreamKind.ws_client_frame;
            request_id = s.stream_id;
            seq = 0;
            fin = true;
          })
          (encode_ws_payload (opcode_of_message m) (bytes_of_message m)))),
)

-- What the client is shown for an event after which the loop goes on.
abbrev pub shown_for : WsRelayEvent → Message
shown_for (WsRelayEvent.frame opcode payload) = outgoing opcode payload
shown_for (WsRelayEvent.close code reason) = Message.close none

send_ws_frame-sent :
    (s : Socket) (accepts : Accepts) (opcode : WsOpcode) (bytes : Bytes)
    → (client_frame s accepts opcode bytes).1 ≡ true
    → (client_frame s accepts opcode bytes).0
      ≡ (
        s.agent_sender,
        message (
            Message.binary (
              encode_chunk_frame_with_version s.agent_protocol_version
                (record {
                  kind = StreamKind.ws_client_frame;
                  request_id = s.stream_id;
                  seq = 0;
                  fin = true;
                })
                (encode_ws_payload opcode bytes))),
      )
        ∷ []
unfolding client_frame send_ws_frame
send_ws_frame-sent s accepts opcode bytes h = ground arith

client_turn-goes_on :
    (s : Socket) (accepts : Accepts) (m : Message)
    → (client_turn s accepts (ClientRead.received m)).1 ≡ true
    → IsFrame m × ((client_turn s accepts (ClientRead.received m)).0 ≡ packet s m ∷ [])
unfolding client_turn client_close
client_turn-goes_on s accepts (Message.text t) h =
    (tt, send_ws_frame-sent s accepts WsOpcode.text t h)
client_turn-goes_on s accepts (Message.binary b) h =
    (tt, send_ws_frame-sent s accepts WsOpcode.binary b h)
client_turn-goes_on s accepts (Message.ping b) h =
    (tt, send_ws_frame-sent s accepts WsOpcode.ping b h)
client_turn-goes_on s accepts (Message.pong b) h =
    (tt, send_ws_frame-sent s accepts WsOpcode.pong b h)
client_turn-goes_on s accepts (Message.close none) h = absurd (cc h)
client_turn-goes_on s accepts (Message.close (some c)) h = absurd (cc h)

relay_turn-goes_on :
    (takes : Takes) (e : WsRelayEvent)
    → (relay_turn takes (some e)).1 ≡ true
    → (relay_turn takes (some e)).0 ≡ shown_for e ∷ []
unfolding relay_turn
relay_turn-goes_on takes (WsRelayEvent.frame opcode payload) h = rw h refl
relay_turn-goes_on takes (WsRelayEvent.close code reason) h = absurd (cc h)

-- What some rounds passed on, in each direction, while the loop goes on.
pub record PassedOn (s : Socket) (rs : List Round) (sent : List Sent) (shown : List Message)
    : Type 0 where
  pub to_agent : sent ≡ map (packet s) (client_messages rs)
  pub to_client : shown ≡ map shown_for (relay_events rs)
  pub frames : All IsFrame (client_messages rs)

turn-goes_on :
    (s : Socket) (accepts : Accepts) (takes : Takes) (input : Input)
    → (turn s accepts takes input).2 ≡ true
    → ((turn s accepts takes input).0 ≡ map (packet s) (message_in input))
      × ((turn s accepts takes input).1 ≡ map shown_for (event_in input))
      × All IsFrame (message_in input)
unfolding turn
turn-goes_on s accepts takes (Input.from_client (ClientRead.received m)) h =
    let (frame, sent) = client_turn-goes_on s accepts m h in (sent, refl, (frame, tt))
turn-goes_on s accepts takes (Input.from_client ClientRead.ended) h =
    absurd (unfold client_turn client_close in cc h)
turn-goes_on s accepts takes (Input.from_client (ClientRead.read_failed err)) h =
    absurd (unfold client_turn client_close in cc h)
turn-goes_on s accepts takes (Input.from_relay none) h = absurd (unfold relay_turn in cc h)
turn-goes_on s accepts takes (Input.from_relay (some e)) h =
    (refl, relay_turn-goes_on takes e h, tt)

-- While the loop goes on it passes everything on.
pub socket_loop-PassedOn :
    (s : Socket) (st : AppState) (rs : List Round)
    → (socket_loop s st rs).3 ≡ false
    → PassedOn s rs (socket_loop s st rs).1 (socket_loop s st rs).2
unfolding socket_loop
socket_loop-PassedOn s st [] h = record { to_agent = refl; to_client = refl; frames = tt }
socket_loop-PassedOn s st (r ∷ rs) h = elim (Bool-cases (turn s r.accepts r.takes r.input).2) [
  | inr stops ↦ absurd (let over : true ≡ false = rw stops at h in cc over)
  | inl goes_on ↦
      let (sent, shown, frames) = turn-goes_on s r.accepts r.takes r.input goes_on in
      let rest = socket_loop-PassedOn s (run st r.others) rs (rw goes_on at h) in
      rw goes_on (record {
        to_agent =
            rw (
              sent,
              rest.to_agent,
              map-append (packet s) (message_in r.input) (client_messages rs),
            );
        to_client =
            rw (shown, rest.to_client, map-append shown_for (event_in r.input) (relay_events rs));
        frames = All-append IsFrame (message_in r.input) (client_messages rs) frames rest.frames;
      })
]
