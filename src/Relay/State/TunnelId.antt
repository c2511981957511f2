-- ===== src/Relay/State/TunnelId.antt =====
-- crates/relay-server/src/state.rs: which names a tunnel may have.
use tunely.Prelude.{
  ℕ, refl, ◌≤◌, ◌≡◌, ◌↔◌, ◌⊎◌, Bool, true, false, ◌&&◌, ◌||◌, [], ◌∷◌, ltb, leb, ◌==◌,
  if◌then◌else◌, length, all, All, is_empty, arith,
}
use tunely.Prelude.Bytes.{Text}

-- `u8::is_ascii_alphanumeric() || b'-' || b'_'`
unfoldable pub is_tunnel_id_byte : ℕ → Bool
is_tunnel_id_byte c =
    (leb b'0' c && leb c b'9')
    || (leb b'A' c && leb c b'Z')
    || (leb b'a' c && leb c b'z')
    || c == b'-'
    || c == b'_'

unfoldable pub is_valid_tunnel_id : Text → Bool
is_valid_tunnel_id tunnel_id =
    if is_empty tunnel_id || ltb 64 (length tunnel_id)
    then false
    else all is_tunnel_id_byte tunnel_id

-- A letter, a digit, a dash or an underscore.
abbrev pub IsTunnelIdByte : ℕ → Type 0
IsTunnelIdByte c =
    ((b'0' ≤ c) × (c ≤ b'9'))
    ⊎ ((b'A' ≤ c) × (c ≤ b'Z'))
    ⊎ ((b'a' ≤ c) × (c ≤ b'z'))
    ⊎ (c ≡ b'-')
    ⊎ (c ≡ b'_')

is_tunnel_id_byte_sound : (c : ℕ) → is_tunnel_id_byte c ≡ true → IsTunnelIdByte c
unfolding is_tunnel_id_byte
is_tunnel_id_byte_sound c h = ground arith

is_tunnel_id_byte_complete : (c : ℕ) → IsTunnelIdByte c → is_tunnel_id_byte c ≡ true
unfolding is_tunnel_id_byte
is_tunnel_id_byte_complete c h = ground arith

all_sound : (s : Text) → all is_tunnel_id_byte s ≡ true → All IsTunnelIdByte s
all_sound [] h = tt
all_sound (c ∷ s) h = (is_tunnel_id_byte_sound c (ground arith), all_sound s (ground arith))

all_complete : (s : Text) → All IsTunnelIdByte s → all is_tunnel_id_byte s ≡ true
all_complete [] h = refl
all_complete (c ∷ s) h = ground (arith, is_tunnel_id_byte_complete c h.0, all_complete s h.1)

-- A tunnel name is accepted exactly when it has 1 to 64 bytes, each of them an ASCII letter, a
-- digit, a dash or an underscore.
pub is_valid_tunnel_id_iff :
    (tunnel_id : Text)
    → (is_valid_tunnel_id tunnel_id ≡ true)
      ↔ ((1 ≤ length tunnel_id) × (length tunnel_id ≤ 64) × All IsTunnelIdByte tunnel_id)
unfolding is_valid_tunnel_id
is_valid_tunnel_id_iff [] = (λ h. cc, λ h. absurd (omega arith))
is_valid_tunnel_id_iff (c ∷ s) = (
  λ h. (omega arith, ground arith, all_sound (c ∷ s) (ground arith)),
  λ h. ground (arith, all_complete (c ∷ s) h.2),
)
