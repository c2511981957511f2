-- ===== src/Protocol/Examples.antt =====
-- The tests of crates/protocol/src/http.rs.
use tunely.Prelude.{◌≡◌, refl, true, false}
use tunely.Prelude.Bytes.{codes, lower, text_eq}
use tunely.Protocol.Http.{is_hop_header}

is_hop_header_mixed_case : is_hop_header (codes "Connection") ≡ true
unfolding is_hop_header lower text_eq
is_hop_header_mixed_case = refl

is_hop_header_end_to_end : is_hop_header (codes "content-type") ≡ false
unfolding is_hop_header lower text_eq
is_hop_header_end_to_end = refl
