-- ===== src/Agent/WsStream/Loop.antt =====
-- crates/agent/src/relay_client.rs: what the loop of `run_one_ws_stream` passes on.
use mathlib.Core.List.{map-append}
use tunely.Prelude.{
  ◌≡◌, refl, true, false, none, some, List, [], ◌∷◌, ◌++◌, map, All, All-append, append_assoc,
  append-nil, arith, Bool-cases, inl, inr,
}
use tunely.Prelude.Bytes.{Bytes}
use tunely.Protocol.Message.{Json, Uuid}
use tunely.Protocol.Frame.{StreamKind, WsOpcode, encode_chunk_frame_with_version, encode_ws_payload}
use tunely.Agent.Events.{Message, WsInboundEvent, Sent, Accepts, to_relay}
use tunely.Agent.RelayClient.{RuntimeCtx}
use tunely.Agent.WsStream.{
  Sessions, LocalRead, Input, Round, Takes, apply_ops, outgoing, send_ws_frame_to_relay,
  local_frame, local_close, local_turn, inbound_turn, turn, stream_loop,
}

-- The opcode and the data that stand for a message. Raw frames are not passed on.
abbrev pub frame_of : Message → List (WsOpcode × Bytes)
frame_of (Message.text t) = (WsOpcode.text, t) ∷ []
frame_of (Message.binary b) = (WsOpcode.binary, b) ∷ []
frame_of (Message.ping b) = (WsOpcode.ping, b) ∷ []
frame_of (Message.pong b) = (WsOpcode.pong, b) ∷ []
frame_of (Message.close c) = []
frame_of (Message.raw_frame b) = []

-- What the local server sent, and what the relay's event was, in one round and in some.
abbrev pub message_in : Input → List Message
message_in (Input.from_local (LocalRead.received m)) = m ∷ []
message_in (Input.from_local LocalRead.ended) = []
message_in (Input.from_local (LocalRead.read_failed err)) = []
message_in (Input.inbound event) = []

abbrev pub event_in : Input → List WsInboundEvent
event_in (Input.from_local read) = []
event_in (Input.inbound none) = []
event_in (Input.inbound (some e)) = e ∷ []

abbrev pub local_messages : List Round → List Message
local_messages [] = []
local_messages (r ∷ rs) = message_in r.input ++ local_messages rs

abbrev pub inbound_events : List Round → List WsInboundEvent
inbound_events [] = []
inbound_events (r ∷ rs) = event_in r.input ++ inbound_events rs

-- The frames of some messages.
abbrev pub frames_of : List Message → List (WsOpcode × Bytes)
frames_of [] = []
frames_of (m ∷ ms) = frame_of m ++ frames_of ms

frames_of-append : (xs ys : List Message) → frames_of (xs ++ ys) ≡ frames_of xs ++ frames_of ys
frames_of-append [] ys = refl
frames_of-append (x ∷ xs) ys = rw (frames_of-append xs ys) (rw (append_assoc (frame_of x)))

-- A message after which the loop goes on.
abbrev pub IsKept : Message → Type 0
IsKept (Message.close c) = ⊥
IsKept m = Unit {0}

abbrev pub packet : RuntimeCtx → Uuid → WsOpcode × Bytes → Sent
packet ctx id f = (
  ctx.relay_tx,
  to_relay (
      Message.binary (
        encode_chunk_frame_with_version ctx.relay_frame_version
          (record { kind = StreamKind.ws_local_frame; request_id = id; seq = 0; fin = true })
          (encode_ws_payload f.0 f.1))),
)

-- What the local server gets for an event after which the loop goes on.
abbrev pub shown_for : WsInboundEvent → Message
shown_for (WsInboundEvent.frame opcode payload) = outgoing opcode payload
shown_for (WsInboundEvent.close code reason) = Message.close none

module _ (json : Json) (ctx : RuntimeCtx) (id : Uuid) where
  local_frame-sent :
      (accepts : Accepts) (opcode : WsOpcode) (bytes : Bytes)
      → (local_frame json ctx id accepts opcode bytes).1 ≡ true
      → (local_frame json ctx id accepts opcode bytes).0 ≡ packet ctx id (opcode, bytes) ∷ []
  unfolding local_frame send_ws_frame_to_relay
  local_frame-sent accepts opcode bytes h = ground arith

  local_turn-goes_on :
      (accepts : Accepts) (m : Message)
      → (local_turn json ctx id accepts (LocalRead.received m)).1 ≡ true
      → IsKept m
        × ((local_turn json ctx id accepts (LocalRead.received m)).0
            ≡ map (packet ctx id) (frame_of m))
  unfolding local_turn local_close
  local_turn-goes_on accepts (Message.text t) h = (tt, local_frame-sent accepts WsOpcode.text t h)
  local_turn-goes_on accepts (Message.binary b) h =
      (tt, local_frame-sent accepts WsOpcode.binary b h)
  local_turn-goes_on accepts (Message.ping b) h = (tt, local_frame-sent accepts WsOpcode.ping b h)
  local_turn-goes_on accepts (Message.pong b) h = (tt, local_frame-sent accepts WsOpcode.pong b h)
  local_turn-goes_on accepts (Message.raw_frame b) h = (tt, refl)
  local_turn-goes_on accepts (Message.close none) h = absurd (cc h)
  local_turn-goes_on accepts (Message.close (some (code, reason))) h = absurd (cc h)

inbound_turn-goes_on :
    (takes : Takes) (e : WsInboundEvent)
    → (inbound_turn takes (some e)).1 ≡ true
    → (inbound_turn takes (some e)).0 ≡ shown_for e ∷ []
unfolding inbound_turn
inbound_turn-goes_on takes (WsInboundEvent.frame opcode payload) h = rw h refl
inbound_turn-goes_on takes (WsInboundEvent.close code reason) h = absurd (cc h)

-- What some rounds passed on, in each direction, while the loop goes on.
pub record PassedOn (ctx : RuntimeCtx) (id : Uuid) (rs : List Round) (sent : List Sent)
    (shown : List Message) : Type 0 where
  pub to_relay : sent ≡ map (packet ctx id) (frames_of (local_messages rs))
  pub to_local : shown ≡ map shown_for (inbound_events rs)
  pub kept : All IsKept (local_messages rs)

module _ (json : Json) (ctx : RuntimeCtx) (id : Uuid) where
  turn-goes_on :
      (accepts : Accepts) (takes : Takes) (input : Input)
      → (turn json ctx id accepts takes input).2 ≡ true
      → ((turn json ctx id accepts takes input).0
          ≡ map (packet ctx id) (frames_of (message_in input)))
        × ((turn json ctx id accepts takes input).1 ≡ map shown_for (event_in input))
        × All IsKept (message_in input)
  unfolding turn
  turn-goes_on accepts takes (Input.from_local (LocalRead.received m)) h =
      let (kept, sent) = local_turn-goes_on json ctx id accepts m h in
      (rw (append-nil (frame_of m)) sent, refl, (kept, tt))
  turn-goes_on accepts takes (Input.from_local LocalRead.ended) h =
      absurd (unfold local_turn local_close in cc h)
  turn-goes_on accepts takes (Input.from_local (LocalRead.read_failed err)) h =
      absurd (unfold local_turn local_close in cc h)
  turn-goes_on accepts takes (Input.inbound none) h = absurd (unfold inbound_turn in cc h)
  turn-goes_on accepts takes (Input.inbound (some e)) h = (refl, inbound_turn-goes_on takes e h, tt)

  -- While the loop goes on it passes everything on.
  pub stream_loop-PassedOn :
      (m : Sessions) (rs : List Round)
      → (stream_loop json ctx id m rs).3 ≡ false
      → PassedOn ctx id rs (stream_loop json ctx id m rs).1 (stream_loop json ctx id m rs).2
  unfolding stream_loop
  stream_loop-PassedOn m [] h = record { to_relay = refl; to_local = refl; kept = tt }
  stream_loop-PassedOn m (r ∷ rs) h =
      elim (Bool-cases (turn json ctx id r.accepts r.takes r.input).2) [
        | inr stops ↦ absurd (let over : true ≡ false = rw stops at h in cc over)
        | inl goes_on ↦
            let (sent, shown, kept) = turn-goes_on r.accepts r.takes r.input goes_on in
            let rest = stream_loop-PassedOn (apply_ops m r.others) rs (rw goes_on at h) in
            rw goes_on (record {
              to_relay = rw (
                sent,
                rest.to_relay,
                frames_of-append (message_in r.input) (local_messages rs),
                map-append (packet ctx id) (frames_of (message_in r.input))
                    (frames_of (local_messages rs)),
              );
              to_local = rw (
                shown,
                rest.to_local,
                map-append shown_for (event_in r.input) (inbound_events rs),
              );
              kept = All-append IsKept (message_in r.input) (local_messages rs) kept rest.kept;
            })
      ]
