-- ===== src/Protocol/Frame/RoundTrip.antt =====
-- crates/protocol/src/frame.rs: what is encoded is decoded, and the other way round.
use tunely.Prelude.{
  ℕ, ◌%◌, ◌^◌, ◌≤◌, ◌<◌, ◌≡◌, refl, sym, ap, Bool, true, false, [], ◌∷◌, ◌++◌, arith, length,
  get_or, set, take-append, drop-append_add, get_or-append, set-append, length-append, split_at,
  All, if◌then◌else◌, not, ltb, ◌==◌, ==_iff, bit_and,
}
use mathlib.Core.Path.{subst}
use tunely.Prelude.Bytes.{Bytes, IsByte, passes_under, passes_under→passes}
use tunely.Protocol.{is_supported_protocol_version}
use tunely.Protocol.Frame.{
  ChunkHeader, IsHeader, ChunkDecodeError, ◌>>=◌, StreamKind, WsOpcode, ok, err, kind_code, kind_of,
  opcode_code, opcode_of, to_be_bytes, from_be_bytes, bool_code, encode_chunk_frame_with_version,
  decode_chunk_header, encode_ws_payload, decode_ws_payload, header_len,
}

pub kind_of-kind_code : (k : StreamKind) → kind_of (kind_code k) ≡ ok k
unfolding kind_of kind_code
kind_of-kind_code StreamKind.request_body = refl
kind_of-kind_code StreamKind.response_body = refl
kind_of-kind_code StreamKind.ws_client_frame = refl
kind_of-kind_code StreamKind.ws_local_frame = refl

pub opcode_of-opcode_code : (o : WsOpcode) → opcode_of (opcode_code o) ≡ ok o
unfolding opcode_of opcode_code
opcode_of-opcode_code WsOpcode.text = refl
opcode_of-opcode_code WsOpcode.binary = refl
opcode_of-opcode_code WsOpcode.ping = refl
opcode_of-opcode_code WsOpcode.pong = refl
opcode_of-opcode_code WsOpcode.close = refl

pub from_be_bytes-to_be_bytes : (n : ℕ) → n < 2 ^ 32 → from_be_bytes (to_be_bytes n) ≡ n
unfolding from_be_bytes to_be_bytes
from_be_bytes-to_be_bytes n h = omega arith

-- A frame read field by field.
pub decode_fields :
    (v k a b c d f : ℕ) (id payload : Bytes)
    → length id ≡ 16
    → decode_chunk_header (v ∷ k ∷ (id ++ a ∷ b ∷ c ∷ d ∷ f ∷ payload)) ≡ (
        if not (is_supported_protocol_version v)
        then err (ChunkDecodeError.unsupported_version v)
        else do
          kind ← kind_of k
          ok (
            record {
              kind = kind;
              request_id = id;
              seq = from_be_bytes (a ∷ b ∷ c ∷ d ∷ []);
              fin = bit_and f 0x01 == 0x01;
            },
            payload,
          ))
unfolding decode_chunk_header
decode_fields v k a b c d f id payload h =
    let rest : Bytes = a ∷ b ∷ c ∷ d ∷ f ∷ payload in
    let long : ltb (length (v ∷ k ∷ (id ++ rest))) header_len ≡ false =
      ground (arith, length-append id rest) in
    rw (
      long,
      take-append id rest 16 h,
      drop-append_add id rest 16 0 h,
      get_or-append id rest 16 4 0 h,
      drop-append_add id rest 16 5 h,
    )

flags_of-bool_code : (b : Bool) → (bit_and (bool_code b) 0x01 == 0x01) ≡ b
unfolding bool_code
flags_of-bool_code true = refl
flags_of-bool_code false = refl

-- Decoding a frame that was encoded with a supported version gives back the header, if its
-- identifier has 16 bytes and its sequence number is a u32, and the payload.
pub decode_chunk_header-encode :
    (version : ℕ) (h : ChunkHeader) (payload : Bytes)
    → is_supported_protocol_version version ≡ true
    → IsHeader h
    → decode_chunk_header (encode_chunk_frame_with_version version h payload) ≡ ok (h, payload)
unfolding encode_chunk_frame_with_version to_be_bytes
decode_chunk_header-encode version h payload supported valid = rw (
  decode_fields version _ _ _ _ _ _ h.request_id payload valid.id_length,
  supported,
  kind_of-kind_code h.kind,
  from_be_bytes-to_be_bytes h.seq valid.seq_bound,
  flags_of-bool_code h.fin,
)

decode-long :
    (frame : Bytes) {r : ChunkHeader × Bytes} → decode_chunk_header frame ≡ ok r → 23 ≤ length frame
unfolding decode_chunk_header
decode-long frame e = ground arith

kind_code-kind_of : (k : ℕ) (kind : StreamKind) → kind_of k ≡ ok kind → kind_code kind ≡ k
unfolding kind_of kind_code
kind_code-kind_of k kind e = ground arith

low_bit_table : passes_under (λ f. bool_code (bit_and f 0x01 == 0x01) == f % 2) 256 ≡ true
unfolding passes_under bool_code
low_bit_table = refl

low_bit : (f : ℕ) → IsByte f → bool_code (bit_and f 0x01 == 0x01) ≡ f % 2
low_bit f h = (==_iff _ (f % 2)).0 (passes_under→passes _ 256 low_bit_table f h)

-- The header that the fields of a frame give is the header of that frame.
fields_inv :
    (v k a b c d f : ℕ) (id p payload : Bytes) (h : ChunkHeader)
    → length id ≡ 16
    → IsByte f
    → decode_chunk_header (v ∷ k ∷ (id ++ a ∷ b ∷ c ∷ d ∷ f ∷ p)) ≡ ok (h, payload)
    → (is_supported_protocol_version v ≡ true)
      × (kind_code h.kind ≡ k)
      × (h.request_id ≡ id)
      × (h.seq ≡ from_be_bytes (a ∷ b ∷ c ∷ d ∷ []))
      × (bool_code h.fin ≡ f % 2)
      × (payload ≡ p)
fields_inv v k a b c d f id p payload h l byte e =
    ground (arith, decode_fields v k a b c d f id p l, kind_code-kind_of k h.kind, low_bit f byte)

from_be_bytes-bound :
    (a b c d : ℕ)
    → IsByte a
    → IsByte b
    → IsByte c
    → IsByte d
    → from_be_bytes (a ∷ b ∷ c ∷ d ∷ []) < 2 ^ 32
unfolding from_be_bytes
from_be_bytes-bound a b c d ha hb hc hd = omega arith

to_be_bytes-from_be_bytes :
    (a b c d : ℕ)
    → IsByte a
    → IsByte b
    → IsByte c
    → IsByte d
    → to_be_bytes (from_be_bytes (a ∷ b ∷ c ∷ d ∷ [])) ≡ a ∷ b ∷ c ∷ d ∷ []
unfolding from_be_bytes to_be_bytes
to_be_bytes-from_be_bytes a b c d ha hb hc hd = ground arith

-- The statement below, of a frame spelled out.
abbrev Reencodes : Bytes → Bytes → ChunkHeader → Type 0
Reencodes frame payload h =
    IsHeader h
    × (is_supported_protocol_version (get_or frame 0 0) ≡ true)
    × (encode_chunk_frame_with_version (get_or frame 0 0) h payload
        ≡ set frame 22 (get_or frame 22 0 % 2))

fields_Reencodes :
    (v k a b c d f : ℕ) (id p payload : Bytes) (h : ChunkHeader)
    → length id ≡ 16
    → All IsByte (a ∷ b ∷ c ∷ d ∷ f ∷ p)
    → decode_chunk_header (v ∷ k ∷ (id ++ a ∷ b ∷ c ∷ d ∷ f ∷ p)) ≡ ok (h, payload)
    → Reencodes (v ∷ k ∷ (id ++ a ∷ b ∷ c ∷ d ∷ f ∷ p)) payload h
unfolding encode_chunk_frame_with_version
fields_Reencodes v k a b c d f id p payload h l (ha, (hb, (hc, (hd, (hf, _))))) e =
    let rest : Bytes = a ∷ b ∷ c ∷ d ∷ f ∷ p in
    let (supported, kind, name, seq, fin, body) = fields_inv v k a b c d f id p payload h l hf e in
    (
      record {
        id_length = rw name l;
        seq_bound = omega (arith, seq, from_be_bytes-bound a b c d ha hb hc hd);
      },
      supported,
      rw (
        kind,
        name,
        seq,
        fin,
        body,
        to_be_bytes-from_be_bytes a b c d ha hb hc hd,
        get_or-append id rest 16 4 0 l,
        set-append id rest 16 4 (f % 2) l,
      ),
    )

All-suffix : (xs ys : Bytes) → All IsByte (xs ++ ys) → All IsByte ys
All-suffix [] ys h = h
All-suffix (x ∷ xs) ys h = All-suffix xs ys h.1

tail_Reencodes :
    (v k : ℕ) (id rest payload : Bytes) (h : ChunkHeader)
    → length id ≡ 16
    → 5 ≤ length rest
    → All IsByte rest
    → decode_chunk_header (v ∷ k ∷ (id ++ rest)) ≡ ok (h, payload)
    → Reencodes (v ∷ k ∷ (id ++ rest)) payload h
tail_Reencodes v k id (a ∷ b ∷ c ∷ d ∷ f ∷ p) payload h l long bytes e =
    fields_Reencodes v k a b c d f id p payload h l bytes e
tail_Reencodes v k id rest payload h l long bytes e = absurd (omega arith)

-- A frame that decodes is the encoding, under a supported version, of what it decodes to, but
-- that only the lowest bit of its flags is kept; the decoded header has an identifier of 16
-- bytes and a u32 sequence number.
pub encode-decode_chunk_header :
    (frame payload : Bytes) (h : ChunkHeader)
    → All IsByte frame
    → decode_chunk_header frame ≡ ok (h, payload)
    → IsHeader h
      × (is_supported_protocol_version (get_or frame 0 0) ≡ true)
      × (encode_chunk_frame_with_version (get_or frame 0 0) h payload
          ≡ set frame 22 (get_or frame 22 0 % 2))
encode-decode_chunk_header [] payload h bytes e = absurd (omega (arith, decode-long [] e))
encode-decode_chunk_header (v ∷ []) payload h bytes e =
    absurd (omega (arith, decode-long (v ∷ []) e))
encode-decode_chunk_header (v ∷ k ∷ r) payload h bytes e =
    let (id, rest, eq, l) = split_at 16 r (omega (arith, decode-long (v ∷ k ∷ r) e)) in
    let frame : Bytes → Bytes = λ t. v ∷ k ∷ t in
    subst (λ t. Reencodes (frame t) payload h) (sym eq)
      (tail_Reencodes v k id rest payload h l
        (omega (arith, decode-long (v ∷ k ∷ r) e, ap length eq, length-append id rest))
        (All-suffix id rest (subst (All IsByte) eq bytes.1.1))
        (subst (λ t. decode_chunk_header (frame t) ≡ ok (h, payload)) eq e))

-- The opcode and the payload of a websocket message survive encoding and decoding.
pub decode_ws_payload-encode :
    (opcode : WsOpcode) (payload : Bytes)
    → decode_ws_payload (encode_ws_payload opcode payload) ≡ ok (opcode, payload)
unfolding decode_ws_payload encode_ws_payload
decode_ws_payload-encode opcode payload = rw opcode_of-opcode_code

-- A payload that decodes to an opcode and data is the encoding of these.
pub encode-decode_ws_payload :
    (bytes payload : Bytes) (opcode : WsOpcode)
    → decode_ws_payload bytes ≡ ok (opcode, payload)
    → encode_ws_payload opcode payload ≡ bytes
unfolding decode_ws_payload encode_ws_payload opcode_of opcode_code
encode-decode_ws_payload [] payload opcode e = cc
encode-decode_ws_payload (b ∷ bs) payload opcode e = ground arith
