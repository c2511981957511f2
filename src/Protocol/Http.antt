-- ===== src/Protocol/Http.antt =====
-- crates/protocol/src/http.rs: the headers that a proxy does not pass on.
use tunely.Prelude.{Bool, ◌≡◌, ◌↔◌, List, [], ◌∷◌, ap, true}
use tunely.Prelude.Bytes.{
  Text, codes, contains, to_ascii_lowercase, contains_iff, eq_ignore_ascii_case, text_eq→eq,
}
use mathlib.Core.List.{Mem}

-- The arms of the `matches!`.
abbrev pub hop_headers : List Text
hop_headers =
    codes "connection"
    ∷ codes "keep-alive"
    ∷ codes "proxy-authenticate"
    ∷ codes "proxy-authorization"
    ∷ codes "te"
    ∷ codes "trailers"
    ∷ codes "transfer-encoding"
    ∷ codes "upgrade"
    ∷ []

unfoldable pub is_hop_header : Text → Bool
is_hop_header name = contains hop_headers (to_ascii_lowercase name)

-- A name is a hop-by-hop header exactly when its ASCII lower-case form is one of the eight listed
-- names.
pub is_hop_header_iff :
    (name : Text) → (is_hop_header name ≡ true) ↔ Mem (to_ascii_lowercase name) hop_headers
unfolding is_hop_header
is_hop_header_iff name = contains_iff hop_headers (to_ascii_lowercase name)

-- Two names that differ only in ASCII case are treated alike.
pub is_hop_header-case :
    (a b : Text) → eq_ignore_ascii_case a b ≡ true → is_hop_header a ≡ is_hop_header b
unfolding is_hop_header
is_hop_header-case a b h = ap (contains hop_headers) (text_eq→eq _ _ h)
