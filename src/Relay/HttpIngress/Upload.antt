-- ===== src/Relay/HttpIngress/Upload.antt =====
-- crates/relay-server/src/http_ingress.rs: the frames in which a request body goes to the agent.
use tunely.Prelude.{
  ℕ, ◌+◌, ◌%◌, ◌^◌, ◌<◌, ◌≡◌, refl, ap, Bool, true, false, List, [], ◌∷◌, ◌++◌, arith, length,
  Bool-cases, inl, inr,
}
use tunely.Prelude.Bytes.{Bytes}
use tunely.Protocol.{is_supported_protocol_version}
use tunely.Protocol.Message.{Uuid}
use tunely.Protocol.Frame.{
  ChunkHeader, StreamKind, ok, decode_chunk_header, encode_chunk_frame_with_version,
}
use tunely.Protocol.Frame.RoundTrip.{decode_chunk_header-encode}
use tunely.Relay.Events.{Message, Sender, Sent, Accepts, message}
use tunely.Relay.HttpIngress.{BodyItem, chunk, failed, stream_request_body}

-- The non-empty chunks before a read error, numbered from `seq` on modulo 2 ^ 32.
unfoldable pub numbered : ℕ → List BodyItem → List (ℕ × Bytes)
numbered seq [] = []
numbered seq (failed ∷ items) = []
numbered seq (chunk [] ∷ items) = numbered seq items
numbered seq (chunk (b ∷ bs) ∷ items) = (seq, b ∷ bs) ∷ numbered ((seq + 1) % 2 ^ 32) items

-- The packets, on the agent's channel, decode to these chunks of the request's body, in order.
abbrev pub Reads : Sender → Uuid → List Sent → List (ℕ × Bytes) → Type 0
Reads sender id [] [] = Unit {0}
Reads sender id ((s, p) ∷ out) ((seq, bytes) ∷ chunks) =
    ((s ≡ sender)
      × ((frame : Bytes) × (p ≡ message (Message.binary frame))
          × (decode_chunk_header frame
              ≡ ok (
                record { kind = StreamKind.request_body; request_id = id; seq = seq; fin = false },
                bytes,
              ))))
    × Reads sender id out chunks
Reads sender id out chunks = ⊥

abbrev pub HasFailure : List BodyItem → Type 0
HasFailure [] = ⊥
HasFailure (failed ∷ items) = Unit {0}
HasFailure (chunk bytes ∷ items) = HasFailure items

-- What was sent is read as a first part of the chunks, and as all of them on success.
abbrev pub Uploaded : Sender → Uuid → ℕ → List BodyItem → List Sent × Bool → Type 0
Uploaded sender id seq items r =
    (sent : List (ℕ × Bytes)) × (unsent : List (ℕ × Bytes)) × Reads sender id r.0 sent
    × (numbered seq items ≡ sent ++ unsent)
    × (r.1 ≡ true → (unsent ≡ []) × (¬ HasFailure items))

module _ (accepts : Accepts) (sender : Sender) (id : Uuid) (version : ℕ) where
  -- A body is uploaded as frames that the agent's decoder reads, under a supported version and an
  -- identifier of 16 bytes, as its non-empty chunks in order, numbered from `seq` on; when the upload
  -- fails they are a first part of these, and when it succeeds they are all, and no read failed.
  pub stream_request_body-Uploaded :
      is_supported_protocol_version version ≡ true
      → length id ≡ 16
      → (items : List BodyItem) (seq : ℕ) → seq < 2 ^ 32
      → Uploaded sender id seq items (stream_request_body accepts sender id version seq items)
  unfolding stream_request_body numbered
  stream_request_body-Uploaded supported l [] seq h = ([], [], tt, refl, λ _. (refl, λ f. f))
  stream_request_body-Uploaded supported l (failed ∷ items) seq h = ([], [], tt, refl, λ e. cc)
  stream_request_body-Uploaded supported l (chunk [] ∷ items) seq h =
      stream_request_body-Uploaded supported l items seq h
  stream_request_body-Uploaded supported l (chunk (b ∷ bs) ∷ items) seq h =
      let header : ChunkHeader = record {
        kind = StreamKind.request_body;
        request_id = id;
        seq = seq;
        fin = false;
      } in
      let frame : Bytes = encode_chunk_frame_with_version version header (b ∷ bs) in
      let decoded =
        decode_chunk_header-encode version header (b ∷ bs) supported
          (record { id_length = l; seq_bound = h }) in
      let (sent, unsent, reads, split, whole) =
        stream_request_body-Uploaded supported l items ((seq + 1) % 2 ^ 32) (omega arith) in
      elim (Bool-cases (accepts sender (message (Message.binary frame)))) [
        | inl taken ↦ rw taken (
          (seq, b ∷ bs) ∷ sent,
          unsent,
          ((refl, (frame, refl, decoded)), reads),
          ap (◌∷◌ (seq, b ∷ bs)) split,
          whole,
        )
        | inr refused ↦
            rw refused ([], (seq, b ∷ bs) ∷ numbered ((seq + 1) % 2 ^ 32) items, tt, refl, λ e. cc)
      ]
