-- ===== src/Agent/RelayClient/Upload.antt =====
-- crates/agent/src/relay_client.rs and crates/relay-server/src/http_ingress.rs: the body of a request
-- on its way from the relay to the agent's task.
use tunely.Prelude.{
  ℕ, ◌≡◌, refl, true, false, List, [], ◌∷◌, ◌++◌, some, map, arith, length, append-nil,
}
use tunely.Prelude.Bytes.{Bytes}
use tunely.Prelude.Map.{lookup}
use tunely.Protocol.{is_supported_protocol_version}
use tunely.Protocol.Message.{Uuid}
use tunely.Protocol.Frame.{StreamKind, ok, decode_chunk_header}
use tunely.Agent.Events.{Sender, Sent, Accepts, body_chunk}
use tunely.Agent.RelayClient.{
  Tables, forward_body, handle_chunk, handle_binary_message, inflight_get,
}
use tunely.Relay.Events
use tunely.Relay.HttpIngress.{BodyItem, stream_request_body}
use tunely.Relay.HttpIngress.Upload.{numbered, Reads, stream_request_body-Uploaded}

-- The agent handles, in order, the binary messages that the relay put on its channel.
unfoldable pub take_frames : Accepts → Tables → List Events.Sent → Tables × List Sent
take_frames accepts t [] = (t, [])
take_frames accepts t ((s, Events.message (Events.Message.binary bytes)) ∷ rest) =
    let (t₁, out₁) = handle_binary_message accepts t bytes in
    let (t₂, out₂) = take_frames accepts t₁ rest in (t₂, out₁ ++ out₂)
take_frames accepts t ((s, p) ∷ rest) = take_frames accepts t rest

-- The chunks on a request's body channel.
abbrev pub body_chunks : Sender → List (ℕ × Bytes) → List Sent
body_chunks tx = map (λ c. (tx, body_chunk c.1))

pub one_chunk :
    (accepts : Accepts) (t : Tables) (id frame bytes : Bytes) (seq : ℕ) (tx : Sender)
    → decode_chunk_header frame
      ≡ ok (
        record { kind = StreamKind.request_body; request_id = id; seq = seq; fin = false },
        bytes,
      )
    → lookup id t.inflight ≡ some tx
    → ((p : Bytes) → accepts tx (body_chunk p) ≡ true)
    → handle_binary_message accepts t frame ≡ (t, (tx, body_chunk bytes) ∷ [])
unfolding handle_binary_message handle_chunk
one_chunk accepts t id frame bytes seq tx decoded known takes =
    rw (decoded, handle_binary_message)
      (rw (known, handle_chunk, forward_body, inflight_get)
        (rw (takes bytes, handle_chunk, forward_body)))

take_frames-Reads :
    (accepts : Accepts) (t : Tables) (sender tx : Sender) (id : Uuid) (out : List Events.Sent)
    (chunks : List (ℕ × Bytes))
    → Reads sender id out chunks
    → lookup id t.inflight ≡ some tx
    → ((p : Bytes) → accepts tx (body_chunk p) ≡ true)
    → take_frames accepts t out ≡ (t, body_chunks tx chunks)
unfolding take_frames
take_frames-Reads accepts t sender tx id [] [] reads known takes = refl
take_frames-Reads accepts t sender tx id [] (c ∷ cs) reads known takes = absurd reads
take_frames-Reads accepts t sender tx id ((s, p) ∷ out) [] reads known takes = absurd reads
take_frames-Reads accepts t sender tx id ((s, p) ∷ out) ((seq, bytes) ∷ cs) reads known takes =
    let (frame, here, decoded) = reads.0.1 in
    rw here (
      rw (one_chunk accepts t id frame bytes seq tx decoded known takes)
        (rw (take_frames-Reads accepts t sender tx id out cs reads.1 known takes)))

-- A body that the relay uploads in full reaches the agent's task: the agent passes on its non-empty
-- chunks, in order and unchanged, on the channel of the request, and keeps its tables, if it knows
-- the request, its channel is open, the relay uses a supported version and the identifier has 16
-- bytes.
pub upload_delivered :
    (relay_accepts : Events.Accepts) (sender : Events.Sender) (id : Uuid) (version : ℕ)
    (items : List BodyItem) (accepts : Accepts) (t : Tables) (tx : Sender)
    → is_supported_protocol_version version ≡ true
    → length id ≡ 16
    → (stream_request_body relay_accepts sender id version 0 items).1 ≡ true
    → lookup id t.inflight ≡ some tx
    → ((p : Bytes) → accepts tx (body_chunk p) ≡ true)
    → take_frames accepts t (stream_request_body relay_accepts sender id version 0 items).0
      ≡ (t, body_chunks tx (numbered 0 items))
upload_delivered relay_accepts sender id version items accepts t tx supported l whole known takes =
    let (sent, unsent, reads, split, all_of_it) =
      stream_request_body-Uploaded relay_accepts sender id version supported l items 0
        (omega arith) in
    rw (take_frames-Reads accepts t sender tx id _ sent reads known takes)
      (rw (split, (all_of_it whole).0, append-nil sent))
