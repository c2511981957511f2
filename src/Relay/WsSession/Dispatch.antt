-- ===== src/Relay/WsSession/Dispatch.antt =====
-- crates/relay-server/src/ws_session.rs: what the messages of an agent do to the tables.
use tunely.Prelude.{
  ℕ, ◌≡◌, refl, inl, inr, true, List, [], ◌∷◌, ◌++◌, none, some, map, Bool-cases, Option-cases,
  if◌then◌else◌,
}
use tunely.Prelude.Bytes.{Bytes}
use tunely.Protocol.{is_supported_protocol_version}
use tunely.Protocol.Message.{ControlMessage}
use tunely.Protocol.Frame.{
  ChunkHeader, StreamKind, WsOpcode, IsHeader, ok, err, Result-cases, decode_chunk_header,
  decode_ws_payload, encode_chunk_frame_with_version, encode_ws_payload,
}
use tunely.Protocol.Frame.RoundTrip.{decode_chunk_header-encode, decode_ws_payload-encode}
use tunely.Relay.Events.{Accepts, Message}
use tunely.Relay.State.{AppState, notify_body, notify_end, notify_ws_frame}
use tunely.Relay.State.Steps.{Op, step, run}
use tunely.Relay.WsSession.{
  Session, Incoming, turn, handle_control, handle_text_message, handle_chunk, handle_binary_message,
}

-- A response body frame, encoded under a supported version, reaches the request whose identifier
-- it carries with the encoded bytes; the request is ended after it exactly if the frame is final.
pub handle_binary_message-response_body :
    (accepts : Accepts) (st : AppState) (version : ℕ) (h : ChunkHeader) (payload : Bytes)
    → is_supported_protocol_version version ≡ true
    → IsHeader h
    → h.kind ≡ StreamKind.response_body
    → let body = notify_body accepts st h.request_id payload in
      let last = notify_end accepts body.0 h.request_id in
      handle_binary_message accepts st (encode_chunk_frame_with_version version h payload)
      ≡ (if h.fin then (last.0, body.1 ++ last.1, true) else (body.0, body.1, true))
unfolding handle_binary_message handle_chunk
handle_binary_message-response_body accepts st version h payload supported valid kind =
    rw (decode_chunk_header-encode version h payload supported valid, handle_binary_message)
      (rw (kind, handle_chunk))

-- A websocket frame that an agent encodes for a stream reaches that stream with its opcode and its
-- data.
pub handle_binary_message-ws_local_frame :
    (accepts : Accepts) (st : AppState) (version : ℕ) (h : ChunkHeader) (opcode : WsOpcode)
    (bytes : Bytes)
    → is_supported_protocol_version version ≡ true
    → IsHeader h
    → h.kind ≡ StreamKind.ws_local_frame
    → let delivered = notify_ws_frame accepts st h.request_id opcode bytes in
      handle_binary_message accepts st
        (encode_chunk_frame_with_version version h (encode_ws_payload opcode bytes))
      ≡ (delivered.0, delivered.1, true)
unfolding handle_binary_message handle_chunk
handle_binary_message-ws_local_frame accepts st version h opcode bytes supported valid kind =
    rw
      (
        decode_chunk_header-encode version h (encode_ws_payload opcode bytes) supported valid,
        handle_binary_message,
      )
      (rw (kind, handle_chunk) (rw (decode_ws_payload-encode opcode bytes, handle_chunk)))

-- The operations on the tables that a message stands for.
unfoldable pub control_ops : ControlMessage → List Op
control_ops (ControlMessage.http_response_start r status hs) = Op.notify_start r status hs ∷ []
control_ops (ControlMessage.http_response_end r) = Op.notify_end r ∷ []
control_ops (ControlMessage.ws_connect_ack i a p r) = Op.notify_ws_connect_ack i a p r ∷ []
control_ops (ControlMessage.ws_close i c r) = Op.notify_ws_close i c r ∷ []
control_ops (ControlMessage.error (some r) c m) = Op.notify_error r c m ∷ []
control_ops msg = []

unfoldable pub chunk_ops : ChunkHeader → StreamKind → Bytes → List Op
chunk_ops h StreamKind.response_body payload =
    if h.fin
    then Op.notify_body h.request_id payload ∷ Op.notify_end h.request_id ∷ []
    else Op.notify_body h.request_id payload ∷ []
chunk_ops h StreamKind.ws_local_frame payload = elim (decode_ws_payload payload) [
  | ok (opcode, bytes) ↦ Op.notify_ws_frame h.request_id opcode bytes ∷ []
  | err e ↦ []
]
chunk_ops h kind payload = []

unfoldable pub turn_ops : Session → Incoming → List Op
turn_ops s (Incoming.received (Message.text text)) = elim (s.json.from_str text) [
  | some msg ↦ control_ops msg
  | none ↦ []
]
turn_ops s (Incoming.received (Message.binary bytes)) = elim (decode_chunk_header bytes) [
  | ok (h, payload) ↦ chunk_ops h h.kind payload
  | err e ↦ []
]
turn_ops s incoming = []

-- The operations under the same answers of the channels.
abbrev pub under : Accepts → List Op → List (Accepts × Op)
under accepts = map (λ op. (accepts, op))

handle_control-run :
    (s : Session) (accepts : Accepts) (st : AppState) (msg : ControlMessage)
    → (handle_control s.json accepts st s.out_tx msg).0 ≡ run st (under accepts (control_ops msg))
unfolding handle_control control_ops run step
handle_control-run s accepts st (ControlMessage.error (some r) c m) = refl
handle_control-run s accepts st msg = refl

handle_chunk-run :
    (accepts : Accepts) (st : AppState) (h : ChunkHeader) (kind : StreamKind) (payload : Bytes)
    → (handle_chunk accepts st h kind payload).0 ≡ run st (under accepts (chunk_ops h kind payload))
unfolding handle_chunk chunk_ops run step
handle_chunk-run accepts st h StreamKind.response_body payload = elim (Bool-cases h.fin) [
  | inl e ↦ rw e
  | inr e ↦ rw e
]
handle_chunk-run accepts st h StreamKind.ws_local_frame payload =
    elim (Result-cases (decode_ws_payload payload)) [
      | inl ((opcode, bytes), e) ↦ rw (e, handle_chunk, chunk_ops)
      | inr (x, e) ↦ rw (e, handle_chunk, chunk_ops)
    ]
handle_chunk-run accepts st h kind payload = refl

-- A turn of the session's loop does to the tables what the operations do that its message stands
-- for: one notification for a control message, one or two for a frame, and none for a message
-- that does not parse or that an agent should not send.
pub turn-run :
    (s : Session) (accepts : Accepts) (st : AppState) (incoming : Incoming)
    → (turn s accepts st incoming).0 ≡ run st (under accepts (turn_ops s incoming))
unfolding turn turn_ops handle_text_message handle_binary_message run
turn-run s accepts st (Incoming.received (Message.text text)) =
    elim (Option-cases (s.json.from_str text)) [
      | inl e ↦ rw (e, turn, handle_text_message, turn_ops)
      | inr (msg, e) ↦
          rw (e, turn, handle_text_message, turn_ops) (handle_control-run s accepts st msg)
    ]
turn-run s accepts st (Incoming.received (Message.binary bytes)) =
    elim (Result-cases (decode_chunk_header bytes)) [
      | inl ((h, payload), e) ↦
          rw (e, turn, handle_binary_message, turn_ops)
            (handle_chunk-run accepts st h h.kind payload)
      | inr (x, e) ↦ rw (e, turn, handle_binary_message, turn_ops)
    ]
turn-run s accepts st incoming = refl
