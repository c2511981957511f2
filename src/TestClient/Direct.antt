-- ===== src/TestClient/Direct.antt =====
-- The test client of examples/test-client and the example server of examples/echo-server, joined with no
-- tunnel between them.
use tunely.Prelude.{
  ℕ, suc, ◌≡◌, refl, ap, ◌∙◌, true, false, ◌||◌, Option, none, some, List, [], ◌∷◌, ◌++◌,
  if◌then◌else◌,
}
use tunely.Prelude.Bytes.{Text, codes, text_eq, strip_prefix, strip_prefix-append}
use tunely.Prelude.Search.{text_contains}
use tunely.Prelude.Map.{lookup}
use tunely.External.{plain_http}
use tunely.Relay.Events as Axum
use tunely.Agent.Events as Tungstenite
use tunely.EchoServer.{Value, Reply, Request, MethodRouter, app, handle_ws}
use tunely.TestClient.{HttpLib, WsLib, Response}
use tunely.TestClient.Carried.{
  Carries, Linked, mentions, body_of, handler_of, is_plain, message_at, read_by_server, to_client,
}

abbrev base : Text
base = codes "http://127.0.0.1:8080/t/demo"

-- With a printer of JSON.
module _ (print : Value → Text) where
  -- The path is handed to the server.
  abbrev at_handler :
      Text → List (Text × Text) → Text → Option (Request plain_http → Reply) → Option Response
  at_handler method sent body none = none
  at_handler method sent body (some f) = some record {
    is_success = true;
    text = some (
        if text_eq method (codes "HEAD")
        then []
        else body_of print (
            f (record {
              method = method;
              headers = (codes "host", codes "relay") ∷ sent;
              body = body;
            })));
  }

  abbrev at_router :
      Text → List (Text × Text) → Text → Option (MethodRouter plain_http) → Option Response
  at_router method sent body none = none
  at_router method sent body (some router) =
      at_handler method sent body (handler_of plain_http router method)

  abbrev at_path : Text → List (Text × Text) → Text → Option Text → Option Response
  at_path method sent body none = none
  at_path method sent body (some path) = at_router method sent body (lookup path (app plain_http))

  abbrev pub direct : HttpLib
  direct = record {
    Method = Text;
    parse = λ t. some t;
    get = codes "GET";
    send = λ method url sent body. at_path method sent body (strip_prefix base url);
  }

  pub direct-Carries :
      ((t : Text) (v : Value)
        → is_plain t ≡ true
        → mentions t v ≡ true
        → text_contains t (print v) ≡ true)
      → Carries direct plain_http base
  direct-Carries prints = record {
    name = λ m. m;
    parse-name = λ t known. (t, refl, refl);
    name-get = refl;
    to_string = print;
    to_string-mentions = prints;
    arrived = λ sent. (codes "host", codes "relay") ∷ sent;
    arrived-names = λ sent t there.
        rw there (elim (text_eq t (codes "host")) as (λ b. b || true ≡ true) [
          | true ↦ refl
          | false ↦ refl
        ]);
    answered = λ path router m f sent body route handler.
        ap (at_path m sent body) (strip_prefix-append base path)
        ∙ ap (at_router m sent body) route
        ∙ ap (at_handler m sent body) handler;
  }

-- A message of the client, as the server reads it; the client sends no raw frames.
abbrev to_server : Tungstenite.Message → Axum.Message
to_server (Tungstenite.Message.text t) = Axum.Message.text t
to_server (Tungstenite.Message.binary bytes) = Axum.Message.binary bytes
to_server (Tungstenite.Message.ping bytes) = Axum.Message.ping bytes
to_server (Tungstenite.Message.pong bytes) = Axum.Message.pong bytes
to_server (Tungstenite.Message.close none) = Axum.Message.close none
to_server (Tungstenite.Message.close (some (code, reason))) =
    Axum.Message.close (some record { code = code; reason = reason })
to_server (Tungstenite.Message.raw_frame bytes) = Axum.Message.binary bytes

to_server-to_client : (m : Axum.Message) → to_server (to_client m) ≡ m
to_server-to_client (Axum.Message.text t) = refl
to_server-to_client (Axum.Message.binary bytes) = refl
to_server-to_client (Axum.Message.ping bytes) = refl
to_server-to_client (Axum.Message.pong bytes) = refl
to_server-to_client (Axum.Message.close none) = refl
to_server-to_client (Axum.Message.close (some frame)) = refl

abbrev Conn : Type 0
Conn = List Axum.Message × ℕ

abbrev handed : Conn → Option Axum.Message → Option Tungstenite.Message × Conn
handed c none = (none, c)
handed (sent, taken) (some m) = (some (to_client m), (sent, suc taken))

abbrev texts : Tungstenite.Message → Option Text
texts (Tungstenite.Message.text t) = some t
texts other = none

abbrev pub socket : WsLib
socket = record {
  Conn = Conn;
  connect_async = λ url. some ([], 0);
  send = λ c m. some (c.0 ++ (to_server m ∷ []), c.1);
  next = λ c. handed c (message_at c.1 (handle_ws (read_by_server c.0)));
  into_text = texts;
}

pub socket-Linked : Linked socket base
socket-Linked = record {
  sent = λ c. c.0;
  taken = λ c. c.1;
  opens = (([], 0), refl, refl, refl);
  sends = λ c m. ((c.0 ++ (m ∷ []), c.1), rw (to_server-to_client m) refl, refl, refl);
  reads = λ c m h. ((c.0, suc c.1), rw h refl, refl, refl);
  into_text-text = λ t. refl;
}
