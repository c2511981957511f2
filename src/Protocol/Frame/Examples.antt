-- ===== src/Protocol/Frame/Examples.antt =====
-- Frames of crates/protocol/src/frame.rs at concrete bytes: tests, and theorems at inputs.
use tunely.Prelude.{◌≡◌, refl, true, [], ◌∷◌, ◌++◌, arith}
use tunely.Prelude.Bytes.{Bytes, codes}
use tunely.Protocol.{is_supported_protocol_version}
use tunely.Protocol.Frame.{
  ChunkHeader, IsHeader, StreamKind, WsOpcode, ok, err, ChunkDecodeError, encode_chunk_frame,
  encode_chunk_frame_with_version, decode_chunk_header, encode_ws_payload, decode_ws_payload,
  kind_code, kind_of, to_be_bytes, from_be_bytes, bool_code, opcode_of,
}
use tunely.Protocol.Frame.RoundTrip.{decode_chunk_header-encode, decode_ws_payload-encode}

abbrev id : Bytes
id = 1 ∷ 2 ∷ 3 ∷ 4 ∷ 5 ∷ 6 ∷ 7 ∷ 8 ∷ 9 ∷ 10 ∷ 11 ∷ 12 ∷ 13 ∷ 14 ∷ 15 ∷ 255 ∷ []

abbrev header : ChunkHeader
header = record { kind = StreamKind.response_body; request_id = id; seq = 42; fin = true }

header-IsHeader : IsHeader header
header-IsHeader = record { id_length = refl; seq_bound = omega arith }

-- The flags 3 carry a bit that the decoder does not look at.
abbrev odd_flags : Bytes
odd_flags = 1 ∷ 1 ∷ (id ++ 0 ∷ 0 ∷ 0 ∷ 42 ∷ 3 ∷ codes "hi")

odd_flags_decode : decode_chunk_header odd_flags ≡ ok (header, codes "hi")
unfolding decode_chunk_header is_supported_protocol_version kind_of from_be_bytes
odd_flags_decode = refl

encode_chunk_frame_test :
    encode_chunk_frame header (codes "hello") ≡ 2 ∷ 1 ∷ (id ++ 0 ∷ 0 ∷ 0 ∷ 42 ∷ 1 ∷ codes "hello")
unfolding encode_chunk_frame encode_chunk_frame_with_version kind_code to_be_bytes bool_code
encode_chunk_frame_test = refl

rejects_short_frame : decode_chunk_header (1 ∷ 2 ∷ 3 ∷ []) ≡ err ChunkDecodeError.frame_too_short
unfolding decode_chunk_header
rejects_short_frame = refl

rejects_empty_ws_payload : decode_ws_payload [] ≡ err ChunkDecodeError.missing_ws_opcode
unfolding decode_ws_payload
rejects_empty_ws_payload = refl

rejects_ws_opcode : decode_ws_payload (5 ∷ []) ≡ err (ChunkDecodeError.invalid_ws_opcode 5)
unfolding decode_ws_payload opcode_of
rejects_ws_opcode = refl

decode_chunk_header-encode_example :
    decode_chunk_header (encode_chunk_frame_with_version 2 header (codes "hello"))
    ≡ ok (header, codes "hello")
unfolding is_supported_protocol_version
decode_chunk_header-encode_example =
    decode_chunk_header-encode 2 header (codes "hello") refl header-IsHeader

decode_ws_payload-encode_example :
    decode_ws_payload (encode_ws_payload WsOpcode.binary (codes "abc"))
    ≡ ok (WsOpcode.binary, codes "abc")
decode_ws_payload-encode_example = decode_ws_payload-encode WsOpcode.binary (codes "abc")
