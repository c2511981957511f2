-- ===== src/Agent/Examples.antt =====
-- The agent of crates/agent at concrete values.
use tunely.Prelude.{
  ◌≡◌, ℕ, drop, zero, suc, Option, if◌then◌else◌, is_some, refl, true, false, none, some, List, [],
  ◌∷◌, ◌++◌, arith,
}
use tunely.Prelude.Bytes.{Text, codes, uuid, strip_prefix}
use tunely.External.{plain_http}
use tunely.Protocol.Message.{ControlMessage, Json}
use tunely.Relay.State.{AppState}
use tunely.Relay.WsSession.{Session, ack}
use tunely.Relay.HttpIngress
use tunely.Relay.HttpIngress.{extract_target_path, stream_request_body}
use tunely.Agent.Reconnect.{backoff_with_jitter, next_attempt, delays, IsDelay}
use tunely.Agent.Run.{Try, connect, run, run_backs_off}
use tunely.Agent.Connection.{run_once}
use tunely.Agent.Handshake.{AckRead}
use tunely.Agent.Handshake.{Config, relay_supports_ws}
use tunely.Agent.RelayClient.{Tables, RuntimeCtx}
use tunely.Agent.LocalProxy.{UrlLib, compose_local_url}
use tunely.Agent.LocalProxy.Target.{client_chooses_target}
use tunely.Agent.Proxy.{BodyItem, LocalResponse}

three_failures : delays 30 0 ((false, 100) ∷ (false, 0) ∷ (true, 7) ∷ []) ≡ 2100 ∷ 4000 ∷ 1007 ∷ []
unfolding delays backoff_with_jitter next_attempt
three_failures = refl

-- The relay cannot be reached.
abbrev unreachable : ℕ → Try
unreachable jitter_ms = record {
  start = record { connects = false; takes = λ m. true; ack = AckRead.closed; out_tx = 30 };
  rounds = [];
  jitter_ms = jitter_ms;
}

abbrev patient : Config
patient = record {
  relay = codes "wss://relay/ws";
  tunnel_id = codes "demo";
  token = codes "tok";
  local_base = codes "http://127.0.0.1:3000";
  ping_interval_secs = 20;
  max_backoff_secs = 30;
}

-- A JSON reader that reads nothing.
abbrev no_json : Json
no_json = record { to_string = λ msg. none; from_str = λ text. none }

run_backs_off_example :
    (drop 1 (run no_json patient 0 (unreachable 100 ∷ unreachable 7 ∷ unreachable 0 ∷ []))
      ≡ (connect no_json patient (unreachable 7), some 4007)
        ∷ run no_json patient 2 (unreachable 0 ∷ []))
    × IsDelay 30 4007
unfolding run_once
run_backs_off_example =
    run_backs_off no_json patient (unreachable 100 ∷ []) (unreachable 0 ∷ []) (unreachable 7) false
      (refl, tt) refl (omega arith) (omega arith)

-- A JSON that is enough for the messages of these examples.
unfoldable to_string : ControlMessage → Option Text
to_string (ControlMessage.register_ack true reason version capabilities) = some (1 ∷ [])
to_string (ControlMessage.register_ack false (some reason) version capabilities) = some (2 ∷ reason)
to_string (ControlMessage.http_response_start id status headers) = some (3 ∷ [])
to_string (ControlMessage.http_response_end id) = some (0 ∷ [])
to_string msg = none

unfoldable from_str : Text → Option ControlMessage
from_str (suc zero ∷ []) = some (ack true none)
from_str (suc (suc zero) ∷ reason) = some (ack false (some reason))
from_str (suc (suc (suc zero)) ∷ []) = some (
    ControlMessage.http_response_start (uuid 3) 200
      ((codes "content-type", codes "text/html") ∷ []))
from_str (zero ∷ []) = some (ControlMessage.http_response_end (uuid 3))
from_str text = none

abbrev json : Json
json = record { to_string = to_string; from_str = from_str }

abbrev session : Session
session = record { json = json; digits = λ n. n ∷ []; out_tx = 10; connection_id = uuid 1 }

abbrev relay : AppState
relay = record {
  auth_tokens = codes "tok" ∷ [];
  agents = [];
  inflight = (uuid 3, 11) ∷ [];
  ws_pending = [];
  ws_streams = [];
  request_timeout_secs = 60;
}

abbrev config : Config
config = record {
  relay = codes "wss://relay/ws";
  tunnel_id = codes "demo";
  token = codes "tok";
  local_base = codes "http://127.0.0.1:3000";
  ping_interval_secs = 20;
  max_backoff_secs = 30;
}

abbrev items : List HttpIngress.BodyItem
items = HttpIngress.BodyItem.chunk (codes "ab") ∷ HttpIngress.BodyItem.chunk (codes "c") ∷ []

abbrev tables : Tables
tables = record { inflight = (uuid 3, 20) ∷ []; ws_sessions = [] }

abbrev ctx : RuntimeCtx
ctx = record {
  relay_tx = 30;
  local_base = codes "http://127.0.0.1:3000";
  relay_supports_ws = true;
  relay_frame_version = 2;
}

abbrev answer : LocalResponse plain_http
answer = record {
  status = 200;
  headers = (codes "content-type", codes "text/html") ∷ (codes "connection", codes "close") ∷ [];
  body = BodyItem.chunk (codes "hi") ∷ BodyItem.chunk [] ∷ [];
}

-- Addresses are texts, and an address with a scheme is absolute.
abbrev plain_url : UrlLib
plain_url = record {
  Url = Text;
  parse = λ t. some t;
  join = λ b t. if is_some (strip_prefix (codes "http:") t) then some t else some (b ++ t);
  scheme = λ u. codes "http";
  set_scheme = λ u s. some u;
}

client_chooses_target_example :
    compose_local_url plain_url
      (codes "http://127.0.0.1:3000")
      (extract_target_path (some (codes "/t/demo/http://other/x")) (codes "demo") [])
    ≡ some (codes "http://other/x")
unfolding strip_prefix
client_chooses_target_example =
    client_chooses_target plain_url (codes "http://127.0.0.1:3000") (codes "demo") [] b'h'
      (codes "ttp://other/x") (_, refl) (λ b. refl) refl
