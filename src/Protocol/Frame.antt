-- ===== src/Protocol/Frame.antt =====
-- crates/protocol/src/frame.rs: the binary frames that carry bodies and tunnelled websocket data.
pub mod RoundTrip
pub mod Errors
mod Examples
use tunely.Prelude.{
  ℕ, zero, suc, ◌+◌, ◌*◌, ◌/◌, ◌%◌, ◌^◌, ◌<◌, ◌≡◌, Bool, true, false, List, [], ◌∷◌, ◌++◌, Option,
  bit_and, ltb, ◌==◌, if◌then◌else◌, length, get_or, take, drop, not, refl, ◌⊎◌, inl, inr,
}
use tunely.Prelude.Bytes.{Bytes, IsByte}
use tunely.Protocol.{protocol_version, is_supported_protocol_version}
use tunely.Protocol.Message.{Uuid}

abbrev pub header_len : ℕ
header_len = 1 + 1 + 16 + 4 + 1

pub data StreamKind : Type 0 where
  request_body response_body ws_client_frame ws_local_frame : StreamKind

pub data WsOpcode : Type 0 where
  text binary ping pong close : WsOpcode

pub data ChunkDecodeError : Type 0 where
  frame_too_short : ChunkDecodeError
  unsupported_version : ℕ → ChunkDecodeError
  invalid_stream_kind : ℕ → ChunkDecodeError
  missing_ws_opcode : ChunkDecodeError
  invalid_ws_opcode : ℕ → ChunkDecodeError

pub data Result {ℓ} (A : Type ℓ) : Type ℓ where
  ok : A → Result A
  err : ChunkDecodeError → Result A

infixl 5 ◌>>=◌
abbrev pub ◌>>=◌ {ℓ κ} : {A : Type ℓ} {B : Type κ} → Result A → (A → Result B) → Result B
ok a >>= f = f a
err e >>= f = err e

-- `kind as u8`
unfoldable pub kind_code : StreamKind → ℕ
kind_code request_body = 0
kind_code response_body = 1
kind_code ws_client_frame = 2
kind_code ws_local_frame = 3

-- `StreamKind::try_from`
unfoldable pub kind_of : ℕ → Result StreamKind
kind_of value =
    if value == 0
    then ok request_body
    else if value == 1
    then ok response_body
    else if value == 2
    then ok ws_client_frame
    else if value == 3
    then ok ws_local_frame
    else err (invalid_stream_kind value)

-- `opcode as u8`
unfoldable pub opcode_code : WsOpcode → ℕ
opcode_code text = 0
opcode_code binary = 1
opcode_code ping = 2
opcode_code pong = 3
opcode_code close = 4

-- `WsOpcode::try_from`
unfoldable pub opcode_of : ℕ → Result WsOpcode
opcode_of value =
    if value == 0
    then ok text
    else if value == 1
    then ok binary
    else if value == 2
    then ok ping
    else if value == 3
    then ok pong
    else if value == 4
    then ok close
    else err (invalid_ws_opcode value)

pub record ChunkHeader : Type 0 where
  pub kind : StreamKind
  pub request_id : Uuid
  pub seq : ℕ
  pub fin : Bool

-- `u32::to_be_bytes` and `u32::from_be_bytes`
unfoldable pub to_be_bytes : ℕ → Bytes
to_be_bytes n = n / 2 ^ 24 % 256 ∷ n / 2 ^ 16 % 256 ∷ n / 2 ^ 8 % 256 ∷ n % 256 ∷ []

unfoldable pub from_be_bytes : Bytes → ℕ
from_be_bytes bs =
    get_or bs 0 0 * 2 ^ 24 + get_or bs 1 0 * 2 ^ 16 + get_or bs 2 0 * 2 ^ 8 + get_or bs 3 0

-- `u8::from(bool)`
unfoldable pub bool_code : Bool → ℕ
bool_code true = 1
bool_code false = 0

unfoldable pub encode_chunk_frame_with_version : ℕ → ChunkHeader → Bytes → Bytes
encode_chunk_frame_with_version version header payload =
    version
    ∷ kind_code header.kind
    ∷ (header.request_id ++ (to_be_bytes header.seq ++ bool_code header.fin ∷ payload))

unfoldable pub encode_chunk_frame : ChunkHeader → Bytes → Bytes
encode_chunk_frame header payload = encode_chunk_frame_with_version protocol_version header payload

-- The indices lie within the frame once its length is tested.
unfoldable pub decode_chunk_header : Bytes → Result (ChunkHeader × Bytes)
decode_chunk_header frame =
    if ltb (length frame) header_len
    then err frame_too_short
    else (let version = get_or frame 0 0 in
        if not (is_supported_protocol_version version)
        then err (unsupported_version version)
        else do
          kind ← kind_of (get_or frame 1 0)
          let request_id = take 16 (drop 2 frame)
          let seq = from_be_bytes (take 4 (drop 18 frame))
          let flags = get_or frame 22 0
          let payload = drop header_len frame
          ok (
            record {
              kind = kind;
              request_id = request_id;
              seq = seq;
              fin = bit_and flags 0x01 == 0x01;
            },
            payload,
          ))

unfoldable pub encode_ws_payload : WsOpcode → Bytes → Bytes
encode_ws_payload opcode payload = opcode_code opcode ∷ payload

unfoldable pub decode_ws_payload : Bytes → Result (WsOpcode × Bytes)
decode_ws_payload [] = err missing_ws_opcode
decode_ws_payload (opcode ∷ rest) = do opcode ← opcode_of opcode; ok (opcode, rest)

-- What the Rust type `ChunkHeader` holds: an identifier of 16 bytes and a `u32`.
pub record IsHeader (h : ChunkHeader) : Type 0 where
  pub id_length : length h.request_id ≡ 16
  pub seq_bound : h.seq < 2 ^ 32

pub Result-cases {ℓ} :
    {A : Type ℓ} (outcome : Result A)
    → ((value : A) × (outcome ≡ ok value)) ⊎ ((why : ChunkDecodeError) × (outcome ≡ err why))
Result-cases (ok value) = inl (value, refl)
Result-cases (err why) = inr (why, refl)
