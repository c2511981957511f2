-- ===== src/Relay/Ingress/Examples.antt =====
-- Requests of crates/relay-server/src/ingress.rs at concrete headers.
use tunely.Prelude.{◌≡◌, refl, true, false, some, List, [], ◌∷◌, is_some}
use tunely.Prelude.Bytes.{Text, codes, text_eq, strip_prefix, lower, eq_ignore_ascii_case}
use tunely.Prelude.Map.{lookup}
use tunely.Prelude.Split.{trim, trim_start, trim_end, space_len, split_commas}
use tunely.External.{plain_http}
use tunely.Relay.HttpIngress.{extract_target_path}
use tunely.Relay.Ingress.{
  upgrade_client_ws, has_csv_token, header_eq, is_ws_upgrade_candidate, maybe_extract_ws_upgrade,
  ingress_path,
}
use tunely.Relay.Ingress.Candidate.{HeaderText, Lists, ingress_path-websocket}

abbrev headers : List (Text × Text)
headers =
    (codes "connection", codes "keep-alive, Upgrade")
    ∷ (codes "upgrade", codes "websocket")
    ∷ (codes "sec-websocket-key", codes "x")
    ∷ (codes "sec-websocket-version", codes "13")
    ∷ []

ws_upgrade_candidate_false_for_normal_get :
    is_ws_upgrade_candidate plain_http (codes "GET") [] ≡ false
unfolding is_ws_upgrade_candidate has_csv_token header_eq lookup text_eq
ws_upgrade_candidate_false_for_normal_get = refl

opens_websocket :
    ingress_path plain_http true
      (codes "GET")
      headers
      (some (codes "/t/demo/ws?x=1"))
      (codes "demo")
      (codes "ws")
    ≡ upgrade_client_ws (codes "demo") (codes "/ws?x=1")
unfolding ingress_path is_ws_upgrade_candidate maybe_extract_ws_upgrade has_csv_token header_eq
    extract_target_path strip_prefix trim trim_start trim_end space_len split_commas lookup text_eq
    lower
opens_websocket = refl

ingress_path-websocket_example :
    (codes "demo" ≡ codes "demo")
    × (codes "/ws?x=1"
        ≡ extract_target_path (some (codes "/t/demo/ws?x=1")) (codes "demo") (codes "ws"))
    × (codes "GET" ≡ codes "GET")
    × Lists plain_http headers (codes "connection") (codes "upgrade")
    × ((text : Text) × HeaderText plain_http headers (codes "upgrade") text
        × (eq_ignore_ascii_case text (codes "websocket") ≡ true))
    × (is_some (plain_http.get headers (codes "sec-websocket-key")) ≡ true)
    × Lists plain_http headers (codes "sec-websocket-version") (codes "13")
ingress_path-websocket_example =
    ingress_path-websocket plain_http true (codes "GET") headers (some (codes "/t/demo/ws?x=1"))
      (codes "demo") (codes "ws") (codes "demo") (codes "/ws?x=1") opens_websocket
