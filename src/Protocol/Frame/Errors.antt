-- ===== src/Protocol/Frame/Errors.antt =====
-- crates/protocol/src/frame.rs: which byte strings are refused, and with which error.
use tunely.Prelude.{◌≤◌, ◌<◌, ◌≡◌, ◌⊎◌, true, false, arith, length, get_or, drop}
use tunely.Prelude.Bytes.{Bytes}
use tunely.Protocol.{is_supported_protocol_version}
use tunely.Protocol.Frame.{
  ChunkHeader, Result, ok, err, ChunkDecodeError, kind_of, decode_chunk_header, header_len,
}

abbrev pub Outcome : Bytes → Result (ChunkHeader × Bytes) → Type 0
Outcome frame r =
    ((length frame < header_len) × (r ≡ err ChunkDecodeError.frame_too_short))
    ⊎ (header_len ≤ length frame)
      × (is_supported_protocol_version (get_or frame 0 0) ≡ false)
      × (r ≡ err (ChunkDecodeError.unsupported_version (get_or frame 0 0)))
    ⊎ (header_len ≤ length frame)
      × (is_supported_protocol_version (get_or frame 0 0) ≡ true)
      × (3 < get_or frame 1 0)
      × (r ≡ err (ChunkDecodeError.invalid_stream_kind (get_or frame 1 0)))
    ⊎ (header_len ≤ length frame)
      × (is_supported_protocol_version (get_or frame 0 0) ≡ true)
      × (get_or frame 1 0 ≤ 3)
      × ((h : ChunkHeader) × (r ≡ ok (h, drop header_len frame)))

-- The outcome of decoding is fixed by three tests in this order: a frame shorter than the header
-- is too short; a first byte that is no supported version is refused and named; a second byte
-- above 3 is refused and named; every other frame decodes, to the bytes behind the header.
pub decode_chunk_header_outcome : (frame : Bytes) → Outcome frame (decode_chunk_header frame)
unfolding decode_chunk_header kind_of
decode_chunk_header_outcome frame = ground arith
