-- ===== src/Agent/WsStream/Examples.antt =====
-- A stream of crates/agent/src/relay_client.rs at concrete values.
use tunely.Prelude.{◌≡◌, refl, true, none, some, [], ◌∷◌}
use tunely.Prelude.Bytes.{Text, codes, uuid, text_eq}
use tunely.External.{plain_http}
use tunely.Protocol.Message.{Json}
use tunely.Agent.RelayClient.{RuntimeCtx, WsConnectRequest}
use tunely.Agent.Events.{send_control}
use tunely.Agent.LocalProxy.{UrlLib, compose_local_url}
use tunely.Agent.WsStream.{LocalRead, Input, Round}
use tunely.Agent.WsStream.Connect.{ok, err, WsLib, Phases, handle_ws_connect}
use tunely.Agent.WsStream.Outcome.{Ended, handle_ws_connect-Ended}

abbrev json : Json
json = record { to_string = λ msg. some (codes "{}"); from_str = λ text. none }

abbrev plain_url : UrlLib
plain_url = record {
  Url = Text;
  parse = λ t. some t;
  join = λ b t. some t;
  scheme = λ u. codes "http";
  set_scheme = λ u s. some u;
}

abbrev ctx : RuntimeCtx
ctx = record {
  relay_tx = 30;
  local_base = codes "http://127.0.0.1:3000";
  relay_supports_ws = true;
  relay_frame_version = 2;
}

abbrev request : WsConnectRequest
request = record {
  stream_id = uuid 6;
  path_and_query = codes "/ws";
  headers = [];
  subprotocols = codes "chat" ∷ [];
}

-- A local server that takes everything, and one that refuses.
abbrev serving : WsLib plain_http plain_url
serving = record {
  ClientRequest = Text;
  into_client_request = λ u. ok u;
  connect_async = λ r hs p. ok [];
}

abbrev refusing : WsLib plain_http plain_url
refusing = record {
  ClientRequest = Text;
  into_client_request = λ u. ok u;
  connect_async = λ r hs p. err (codes "refused");
}

abbrev over : Round
over = record {
  others = [];
  accepts = λ s p. true;
  takes = λ m. true;
  input = Input.from_local LocalRead.ended;
}

abbrev phases : Phases plain_http plain_url
phases = record {
  in_tx = 20;
  bad_address = codes "bad address";
  ack_accepts = λ s p. true;
  refusal_accepts = λ s p. true;
  before = [];
  rounds = over ∷ [];
  closing = [];
}

stream_returns :
    (handle_ws_connect plain_http plain_url serving json ctx phases [] request).3 ≡ some (ok tt)
unfolding handle_ws_connect compose_local_url text_eq send_control
stream_returns = refl

stream_refused :
    (handle_ws_connect plain_http plain_url refusing json ctx phases [] request).3
    ≡ some (err (codes "refused"))
unfolding handle_ws_connect compose_local_url text_eq
stream_refused = refl

handle_ws_connect-Ended_example :
    let r = handle_ws_connect plain_http plain_url serving json ctx phases [] request in
    Ended plain_http plain_url json ctx phases serving [] request r.0 r.1 r.2 r.3
handle_ws_connect-Ended_example =
    handle_ws_connect-Ended plain_http plain_url json ctx phases serving [] request
