-- ===== src/TestClient/Carried.antt =====
-- examples/test-client and examples/echo-server: what it means that the client's requests, and its
-- websocket, reach the example server and the answers come back. This is what the client relies on of
-- axum, serde_json, reqwest and tokio-tungstenite, and of the tunnel between them.
use tunely.Prelude.{
  ℕ, zero, suc, ◌≡◌, ◌==◌, Bool, true, false, not, ◌&&◌, ◌||◌, Option, none, some, List, [], ◌∷◌,
  ◌++◌, map, leb, if◌then◌else◌, all,
}
use tunely.Prelude.Bytes.{Bytes, Text, codes, text_eq, contains}
use tunely.Prelude.Search.{text_contains}
use tunely.Prelude.Map.{lookup}
use tunely.External.{Http}
use tunely.Relay.Events as Axum
use tunely.Agent.Events as Tungstenite
use tunely.EchoServer.{
  Value, Members, string, number, object, empty, member, Reply, Request, MethodRouter, get, any,
  answers, upgrades, app, Received, ok, handle_ws,
}
use tunely.TestClient.{HttpLib, WsLib, http_to_ws}

-- Texts that JSON writes as they are.
unfoldable pub is_plain : Text → Bool
is_plain t = all (λ c. leb 0x20 c && leb c 0x7E && not (c == b'"') && not (c == b'\\')) t

-- A value mentions a text as a string or as a name.
unfoldable mutual
  pub mentions : Text → Value → Bool
  mentions t (string s) = text_eq s t
  mentions t (number n) = false
  mentions t (object m) = is_mentioned t m

  pub is_mentioned : Text → Members → Bool
  is_mentioned t empty = false
  is_mentioned t (member name value rest) =
      text_eq name t || mentions t value || is_mentioned t rest

-- The body of an answer, with the printer of serde_json.
unfoldable pub body_of : (Value → Text) → Reply → Text
body_of to_string (Reply.text t) = t
body_of to_string (Reply.json value) = to_string value

-- The function that answers a method: the router serves `HEAD` where it serves `GET`.
module _ (headers : Http) where
  unfoldable pub handler_of : MethodRouter headers → Text → Option (Request headers → Reply)
  handler_of (get (answers f)) method =
      if text_eq method (codes "GET") || text_eq method (codes "HEAD") then some f else none
  handler_of (get (upgrades f)) method = none
  handler_of (any (answers f)) method = some f
  handler_of (any (upgrades f)) method = none

-- The methods that the client uses.
abbrev pub standard : List Text
standard =
    codes "GET"
    ∷ codes "POST"
    ∷ codes "PUT"
    ∷ codes "PATCH"
    ∷ codes "DELETE"
    ∷ codes "OPTIONS"
    ∷ codes "HEAD"
    ∷ []

-- The names of headers.
abbrev pub names {ℓ} : {V : Type ℓ} → List (Text × V) → List Text
names headers = map (λ h. h.0) headers

-- A request to a route of the server is answered with a success and what its handler returns; the
-- answer to `HEAD` has no body. On the way a request may be given more headers.
pub record Carries (http : HttpLib) (headers : Http) (base : Text) : Type 1 where
  pub name : http.Method → Text
  pub parse-name :
      (t : Text)
      → contains standard t ≡ true
      → (m : http.Method) × (http.parse t ≡ some m) × (name m ≡ t)
  pub name-get : name http.get ≡ codes "GET"
  pub to_string : Value → Text
  pub to_string-mentions :
      (t : Text) (v : Value)
      → is_plain t ≡ true
      → mentions t v ≡ true
      → text_contains t (to_string v) ≡ true
  pub arrived : List (Text × Text) → headers.HeaderMap
  pub arrived-names :
      (sent : List (Text × Text)) (t : Text)
      → contains (names sent) t ≡ true
      → contains (names (headers.entries (arrived sent))) t ≡ true
  pub answered :
      (path : Text) (router : MethodRouter headers) (m : http.Method) (f : Request headers → Reply)
      (sent : List (Text × Text)) (body : Bytes)
      → lookup path (app headers) ≡ some router
      → handler_of headers router (name m) ≡ some f
      → http.send m (base ++ path) sent body
        ≡ some record {
          is_success = true;
          text = some (
              if text_eq (name m) (codes "HEAD")
              then []
              else body_of to_string
                  (f (record { method = name m; headers = arrived sent; body = body })));
        }

-- The message at an index.
unfoldable pub message_at : ℕ → List Axum.Message → Option Axum.Message
message_at i [] = none
message_at zero (m ∷ ms) = some m
message_at (suc i) (m ∷ ms) = message_at i ms

abbrev pub to_client : Axum.Message → Tungstenite.Message
to_client (Axum.Message.text t) = Tungstenite.Message.text t
to_client (Axum.Message.binary bytes) = Tungstenite.Message.binary bytes
to_client (Axum.Message.ping bytes) = Tungstenite.Message.ping bytes
to_client (Axum.Message.pong bytes) = Tungstenite.Message.pong bytes
to_client (Axum.Message.close none) = Tungstenite.Message.close none
to_client (Axum.Message.close (some frame)) =
    Tungstenite.Message.close (some (frame.code, frame.reason))

-- The messages that the client sent, as the server's loop reads them.
abbrev pub read_by_server : List Axum.Message → List (Received × Bool)
read_by_server sent = map (λ m. (ok m, true)) sent

-- The websocket opens, takes every message, and hands out what the server's loop sends, in order.
pub record Linked (ws : WsLib) (base : Text) : Type 0 where
  pub sent : ws.Conn → List Axum.Message
  pub taken : ws.Conn → ℕ
  pub opens :
      (c : ws.Conn) × (ws.connect_async (http_to_ws base ++ codes "/ws") ≡ some c)
      × (sent c ≡ [])
      × (taken c ≡ 0)
  pub sends :
      (c : ws.Conn) (m : Axum.Message)
      → (d : ws.Conn) × (ws.send c (to_client m) ≡ some d)
        × (sent d ≡ sent c ++ (m ∷ []))
        × (taken d ≡ taken c)
  pub reads :
      (c : ws.Conn) (m : Axum.Message)
      → message_at (taken c) (handle_ws (read_by_server (sent c))) ≡ some m
      → (d : ws.Conn) × (ws.next c ≡ (some (to_client m), d))
        × (sent d ≡ sent c)
        × (taken d ≡ suc (taken c))
  pub into_text-text : (t : Text) → ws.into_text (Tungstenite.Message.text t) ≡ some t
