-- ===== src/Exchange/Examples.antt =====
-- A whole HTTP exchange at concrete values.
use tunely.Prelude.{◌≡◌, refl, sym, ap, map, zero, suc, true, Option, none, some, [], ◌∷◌, arith}
use tunely.Prelude.Bytes.{Text, codes, uuid, text_eq, strip_prefix, lower}
use tunely.Prelude.Map.{lookup, insert, remove}
use tunely.External.{plain_http}
use tunely.Protocol.{is_supported_protocol_version}
use tunely.Protocol.Http.{is_hop_header}
use tunely.Protocol.Message.{ControlMessage, Json}
use tunely.Agent.LocalProxy.{flatten_response_headers, response_entries}
use tunely.Agent.Proxy
use tunely.Agent.Proxy.{LocalResponse, relay_response, stream_response_body}
use tunely.Agent.Proxy.Replies.{take_replies, events, nonempty}
use tunely.Agent.RelayClient.{
  RuntimeCtx, Tables, proxy_one_request, inflight_insert, inflight_remove,
}
use tunely.Agent.Events.{send_control}
use tunely.Agent.Proxy.Delivery.{response_delivered}
use tunely.Relay.HttpIngress.Upload.{numbered}
use tunely.Agent.RelayClient.Upload.{body_chunks}
use tunely.Relay.Events.{RelayEvent}
use tunely.Relay.State.{AppState, AgentHandle, get_agent}
use tunely.Relay.WsSession.{Session}
use tunely.Relay.HttpIngress.{
  BodyItem, Context, Request, streamed, handle_ingress, extract_target_path, flatten_headers,
  flatten_entries, apply_forwarded_headers,
}
use tunely.Exchange.Request.{take_sent, request_reaches_agent}
use tunely.Exchange.Answer.{Log, waits_of, client_gets_local_answer}

-- A JSON for the five messages of the exchange.
unfoldable pub to_string : ControlMessage → Option Text
to_string (ControlMessage.http_request_start id method path headers) = some (0 ∷ [])
to_string (ControlMessage.http_request_end id) = some (1 ∷ [])
to_string (ControlMessage.http_response_start id status headers) = some (2 ∷ [])
to_string (ControlMessage.http_response_end id) = some (3 ∷ [])
to_string (ControlMessage.error (some id) code text) = some (4 ∷ [])
to_string msg = none

unfoldable pub from_str : Text → Option ControlMessage
from_str (zero ∷ []) = some (
    ControlMessage.http_request_start (uuid 3) (codes "POST") (codes "/api?x=1")
      ((codes "accept", codes "text/html") ∷ []))
from_str (suc zero ∷ []) = some (ControlMessage.http_request_end (uuid 3))
from_str (suc (suc zero) ∷ []) = some (
    ControlMessage.http_response_start (uuid 3) 200
      ((codes "content-type", codes "text/html") ∷ []))
from_str (suc (suc (suc zero)) ∷ []) = some (ControlMessage.http_response_end (uuid 3))
from_str (suc (suc (suc (suc zero))) ∷ []) =
    some
      (ControlMessage.error (some (uuid 3)) (codes "local_proxy_error") (codes "connection reset"))
from_str text = none

abbrev pub json : Json
json = record { to_string = to_string; from_str = from_str }

abbrev pub agent : AgentHandle
agent = record { connection_id = uuid 1; sender = 10; capabilities = []; protocol_version = 2 }

abbrev pub st : AppState
st = record {
  auth_tokens = [];
  agents = (codes "demo", agent) ∷ [];
  inflight = [];
  ws_pending = [];
  ws_streams = [];
  request_timeout_secs = 60;
}

-- The tables when the answer comes.
abbrev pub waiting : AppState
waiting = record st { inflight = (uuid 3, 11) ∷ [] }

abbrev pub context : Context plain_http
context = record {
  json = json;
  request_id = uuid 3;
  tx = 11;
  accepts = λ s p. true;
  before = [];
  meanwhile = [];
}

abbrev pub request : Request plain_http
request = record {
  method = codes "POST";
  headers = (codes "host", codes "x") ∷ (codes "accept", codes "text/html") ∷ [];
  body = BodyItem.chunk (codes "ab") ∷ BodyItem.chunk [] ∷ BodyItem.chunk (codes "c") ∷ [];
}

abbrev pub ctx : RuntimeCtx
ctx = record {
  relay_tx = 30;
  local_base = codes "http://127.0.0.1:3000";
  relay_supports_ws = true;
  relay_frame_version = 2;
}

abbrev pub tables : Tables
tables = record { inflight = []; ws_sessions = [] }

request_reaches_agent_example :
    take_sent json ctx
      (λ s p. true)
      20
      tables
      (handle_ingress plain_http context st
        (codes "demo")
        (codes "api")
        (some (codes "/t/demo/api?x=1"))
        request
        []).1
    ≡ (
      record tables { inflight = [] },
      body_chunks 20 ((0, codes "ab") ∷ (1, codes "c") ∷ []),
      proxy_one_request (record {
        request_id = uuid 3;
        method = codes "POST";
        path_and_query = codes "/api?x=1";
        headers = (codes "accept", codes "text/html") ∷ [];
        body_rx = 20;
      })
          ∷ [],
    )
unfolding get_agent lookup text_eq to_string from_str extract_target_path flatten_headers
    strip_prefix flatten_entries is_hop_header lower is_supported_protocol_version inflight_remove
    numbered remove inflight_insert insert
request_reaches_agent_example =
    request_reaches_agent plain_http context st (codes "demo") (codes "api")
      (some (codes "/t/demo/api?x=1")) request [] agent refl (λ p. refl) (0 ∷ [], refl, refl)
      (1 ∷ [], refl, refl) (λ f. f) refl refl ctx (λ s p. true) 20 tables (λ p. refl)

abbrev pub answer : LocalResponse plain_http
answer = record {
  status = 200;
  headers = (codes "content-type", codes "text/html") ∷ (codes "connection", codes "close") ∷ [];
  body = Proxy.BodyItem.chunk (codes "hi") ∷ Proxy.BodyItem.chunk [] ∷ [];
}

abbrev pub session : Session
session = record { json = json; digits = λ n. n ∷ []; out_tx = 10; connection_id = uuid 1 }

abbrev pub log : Log
log =
    (1000, RelayEvent.start 200 ((codes "content-type", codes "text/html") ∷ []))
    ∷ (2000, RelayEvent.body (codes "hi"))
    ∷ (3000, RelayEvent.end)
    ∷ []

-- The relay's session makes just these events of the agent's messages.
pub log_heard :
    events 11 (map (λ e. e.1) log)
    ≡ (take_replies session
        (λ s p. true)
        waiting
        (relay_response plain_http json (λ s p. true) ctx (uuid 3) answer).0).1
unfolding to_string from_str is_supported_protocol_version lookup text_eq flatten_response_headers
    response_entries is_hop_header lower relay_response send_control stream_response_body nonempty
log_heard = sym (
    ap (λ r. r.1)
      (response_delivered plain_http session (λ s p. true) waiting 11 (λ s p. true) ctx (uuid 3)
        answer (2 ∷ [], refl, refl) (3 ∷ [], refl, refl) refl refl refl (λ e. refl) refl))

client_gets_local_answer_example :
    (handle_ingress plain_http context st
      (codes "demo")
      (codes "api")
      (some (codes "/t/demo/api?x=1"))
      request
      (waits_of log)).2
    ≡ streamed 200 ((codes "content-type", codes "text/html") ∷ []) (codes "hi" ∷ [])
unfolding get_agent lookup text_eq to_string from_str extract_target_path flatten_headers
    strip_prefix flatten_entries is_hop_header lower is_supported_protocol_version
    flatten_response_headers response_entries relay_response send_control stream_response_body
    nonempty apply_forwarded_headers
client_gets_local_answer_example =
    client_gets_local_answer plain_http context st (codes "demo") (codes "api")
      (some (codes "/t/demo/api?x=1")) request log agent refl (λ p. refl) (0 ∷ [], refl, refl)
      (1 ∷ [], refl, refl) (λ f. f) session (λ s p. true) waiting (λ s p. true) ctx answer
      (2 ∷ [], refl, refl) (3 ∷ [], refl, refl) refl refl refl (λ e. refl) refl log_heard
      (omega arith)
