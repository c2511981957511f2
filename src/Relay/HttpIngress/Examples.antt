-- ===== src/Relay/HttpIngress/Examples.antt =====
-- Requests of crates/relay-server/src/http_ingress.rs at concrete values.
use mathlib.Core.List.{Mem}
use tunely.Prelude.{◌≡◌, ◌≢◌, refl, true, none, some, List, [], ◌∷◌, All, arith}
use tunely.Prelude.Bytes.{Text, codes, uuid, text_eq, strip_prefix, lower}
use tunely.Prelude.Map.{lookup}
use tunely.External.{plain_http}
use tunely.Protocol.{is_supported_protocol_version}
use tunely.Protocol.Http.{is_hop_header}
use tunely.Protocol.Message.{Json}
use tunely.Relay.Events.{RelayEvent, Accepts}
use tunely.Relay.State.{AppState, AgentHandle}
use tunely.Relay.State.Steps.{Op}
use tunely.Relay.HttpIngress.{
  BodyItem, Wait, Received, Context, Request, extract_target_path, flatten_headers, flatten_entries,
  stream_request_body, await_start, handle_ingress,
}
use tunely.Relay.HttpIngress.Paths.{extract_target_path-ne_nil}
use tunely.Relay.HttpIngress.HeaderLists.{Passes, flatten_headers_lem}
use tunely.Relay.HttpIngress.Upload.{Uploaded, stream_request_body-Uploaded}
use tunely.Relay.HttpIngress.Answer.{Answers, await_start_lem}
use tunely.Relay.HttpIngress.Cleanup.{handle_ingress-absent}

path_from_tunnel_route :
    extract_target_path (some (codes "/t/demo/api/v1?x=1")) (codes "demo") (codes "api/v1")
    ≡ codes "/api/v1?x=1"
unfolding extract_target_path strip_prefix
path_from_tunnel_route = refl

path_root : extract_target_path (some (codes "/t/demo")) (codes "demo") [] ≡ codes "/"
unfolding extract_target_path strip_prefix
path_root = refl

extract_target_path-ne_nil_example : extract_target_path none (codes "demo") [] ≢ []
extract_target_path-ne_nil_example = extract_target_path-ne_nil none (codes "demo") []

abbrev client_headers : List (Text × Text)
client_headers =
    (codes "host", codes "x")
    ∷ (codes "accept", codes "text/html")
    ∷ (codes "te", codes "gzip")
    ∷ []

flatten_headers_test :
    flatten_headers plain_http client_headers ≡ (codes "accept", codes "text/html") ∷ []
unfolding flatten_headers flatten_entries is_hop_header text_eq lower
flatten_headers_test = refl

flatten_headers_lem_example :
    All Passes (flatten_headers plain_http client_headers)
    × ((name text : Text) (value : Text)
        → Mem (name, value) client_headers
        → Passes (name, text)
        → some value ≡ some text
        → Mem (name, text) (flatten_headers plain_http client_headers))
flatten_headers_lem_example = flatten_headers_lem plain_http client_headers

abbrev always : Accepts
always = λ s p. true

abbrev items : List BodyItem
items = BodyItem.chunk (codes "ab") ∷ BodyItem.chunk [] ∷ BodyItem.chunk (codes "c") ∷ []

stream_request_body-Uploaded_example :
    Uploaded 10 (uuid 3) 0 items (stream_request_body always 10 (uuid 3) 2 0 items)
unfolding is_supported_protocol_version
stream_request_body-Uploaded_example =
    stream_request_body-Uploaded always 10 (uuid 3) 2 refl refl items 0 (omega arith)

abbrev waits : List Wait
waits =
    (1, Received.event (RelayEvent.body (codes "a")))
    ∷ (2, Received.event (RelayEvent.start 200 []))
    ∷ (3, Received.event (RelayEvent.body (codes "b")))
    ∷ (4, Received.event RelayEvent.end)
    ∷ []

await_start_lem_example : Answers 60 waits [] (await_start 60 waits [])
await_start_lem_example = await_start_lem 60 waits

abbrev json : Json
json = record { to_string = λ msg. some (codes "{}"); from_str = λ text. none }

-- The agent answers before the request is registered.
abbrev context : Context plain_http
context = record {
  json = json;
  request_id = uuid 3;
  tx = 11;
  accepts = always;
  before = (always, Op.notify_start (uuid 3) 200 []) ∷ (always, Op.notify_end (uuid 3)) ∷ [];
  meanwhile = (always, Op.add_inflight (uuid 9) 12) ∷ [];
}

abbrev agent : AgentHandle
agent = record { connection_id = uuid 1; sender = 10; capabilities = []; protocol_version = 2 }

abbrev st : AppState
st = record {
  auth_tokens = [];
  agents = (codes "demo", agent) ∷ [];
  inflight = [];
  ws_pending = [];
  ws_streams = [];
  request_timeout_secs = 60;
}

abbrev request : Request plain_http
request = record { method = codes "POST"; headers = client_headers; body = items }

handle_ingress-absent_example :
    lookup
      (uuid 3)
      (handle_ingress plain_http context st
        (codes "demo")
        []
        (some (codes "/t/demo/"))
        request
        waits).0.inflight
    ≡ none
unfolding lookup
handle_ingress-absent_example =
    handle_ingress-absent plain_http context st (codes "demo") [] (some (codes "/t/demo/")) request
      waits tt refl
