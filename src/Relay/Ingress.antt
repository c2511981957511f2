-- ===== src/Relay/Ingress.antt =====
-- crates/relay-server/src/ingress.rs: whether a client's request opens a websocket or is an HTTP
-- request. The framework's own reading of an upgrade is an argument.
pub mod Candidate
mod Examples
use tunely.Prelude.{
  Bool, true, false, not, ◌&&◌, Option, none, some, List, [], ◌∷◌, if◌then◌else◌, any, is_some,
}
use tunely.Prelude.Bytes.{Text, codes, text_eq, eq_ignore_ascii_case}
use tunely.Prelude.Split.{trim, split_commas}
use tunely.External.{Http}
use tunely.Relay.HttpIngress.{extract_target_path}

-- What a request becomes: `ws_tunnel::upgrade_client_ws` with a tunnel and a path, or
-- `http_ingress::handle_ingress` with a tunnel and the rest of the route.
pub data Choice : Type 0 where
  upgrade_client_ws : Text → Text → Choice
  handle_ingress : Text → Text → Choice

module _ (http : Http) where
  open http use {HeaderMap, get, to_str}

  unfoldable pub has_csv_token : HeaderMap → Text → Text → Bool
  unfolding trim split_commas
  has_csv_token headers name expected = elim (get headers name) [
    | none ↦ false
    | some value ↦ elim (to_str value) [
      | none ↦ false
      | some text ↦ any (λ token. eq_ignore_ascii_case (trim token) expected) (split_commas text)
    ]
  ]

  unfoldable pub header_eq : HeaderMap → Text → Text → Bool
  header_eq headers name expected = elim (get headers name) [
    | none ↦ false
    | some value ↦ elim (to_str value) [
      | none ↦ false
      | some text ↦ eq_ignore_ascii_case text expected
    ]
  ]

  unfoldable pub is_ws_upgrade_candidate : Text → HeaderMap → Bool
  unfolding has_csv_token header_eq
  is_ws_upgrade_candidate method headers =
      if not (text_eq method (codes "GET"))
      then false
      else has_csv_token headers (codes "connection") (codes "upgrade")
        && header_eq headers (codes "upgrade") (codes "websocket")
        && is_some (get headers (codes "sec-websocket-key"))
        && has_csv_token headers (codes "sec-websocket-version") (codes "13")

  -- With whether `WebSocketUpgrade::from_request_parts` succeeds.
  unfoldable pub maybe_extract_ws_upgrade : Bool → Text → Bool
  maybe_extract_ws_upgrade extracts method =
      if not (text_eq method (codes "GET")) then false else extracts

  unfoldable pub ingress_path : Bool → Text → HeaderMap → Option Text → Text → Text → Choice
  unfolding is_ws_upgrade_candidate maybe_extract_ws_upgrade extract_target_path
  ingress_path extracts method headers path_and_query tunnel_id path =
      if is_ws_upgrade_candidate method headers
      then (if maybe_extract_ws_upgrade extracts method
          then upgrade_client_ws tunnel_id (extract_target_path path_and_query tunnel_id path)
          else handle_ingress tunnel_id path)
      else handle_ingress tunnel_id path

  unfoldable pub ingress_root : Bool → Text → HeaderMap → Option Text → Text → Choice
  unfolding ingress_path
  ingress_root extracts method headers path_and_query tunnel_id =
      ingress_path extracts method headers path_and_query tunnel_id []
