-- ===== src/EchoServer.antt =====
-- examples/echo-server/src/main.rs: the server whose answers the test client reads. The router of axum
-- and the printer of serde_json are parameters where they are used. What the program prints on its
-- standard output is left out.
use tunely.Prelude.{
  ℕ, Bool, true, false, Option, none, some, List, [], ◌∷◌, ◌++◌, if◌then◌else◌, length, get_or_else,
}
use tunely.Prelude.Bytes.{Bytes, Text, codes, text_eq}
use tunely.Prelude.Utf8.{from_utf8_lossy}
use tunely.External.{Http}
use tunely.Relay.Events.{Message}
pub mod Maps

-- `serde_json::Value`, as far as the server makes it. The second type is `serde_json::Map`.
mutual
  pub data Value : Type 0 where
    string : Text → Value
    number : ℕ → Value
    object : Members → Value

  pub data Members : Type 0 where
    empty : Members
    member : Text → Value → Members → Members

-- `Map::insert`: a name that is there already gets the new value.
unfoldable pub insert : Text → Value → Members → Members
insert name value empty = member name value empty
insert name value (member n v rest) =
    if text_eq n name then member name value rest else member n v (insert name value rest)

-- What a handler returns: a text, or a value in `Json`.
pub data Reply : Type 0 where
  text : Text → Reply
  json : Value → Reply

-- `Message` or an error, as read from the socket.
pub data Received : Type 0 where
  ok : Message → Received
  err : Received

unfoldable pub hello : Reply
hello = Reply.text (codes "hello from echo-server" ++ b'\n' ∷ [])

unfoldable pub echo_method : Text → Reply
echo_method method = Reply.json (object (member (codes "method") (string method) empty))

unfoldable pub echo_body : Text → Bytes → Reply
echo_body method body = Reply.json (
    object (
      member (codes "method") (string method) (
        member (codes "body") (string (from_utf8_lossy body))
          (member (codes "length") (number (length body)) empty))))

-- One pass of the loop: what is sent, if the socket takes it, and whether the loop goes on. The last
-- argument is whether a send succeeds.
unfoldable pub turn : Received → Bool → List Message × Bool
turn err sends = ([], false)
turn (ok (Message.text t)) sends =
    if sends then (Message.text (codes "echo: " ++ t) ∷ [], true) else ([], false)
turn (ok (Message.binary bytes)) sends =
    if sends then (Message.binary bytes ∷ [], true) else ([], false)
turn (ok (Message.ping bytes)) sends =
    if sends then (Message.pong bytes ∷ [], true) else ([], false)
turn (ok (Message.pong bytes)) sends = ([], true)
turn (ok (Message.close frame)) sends = ([], false)

-- What was read, up to the end of the stream, each with whether a send would succeed then; the
-- result is what the server sends.
unfoldable pub handle_ws : List (Received × Bool) → List Message
unfolding turn
handle_ws [] = []
handle_ws ((received, sends) ∷ rounds) =
    let rest = handle_ws rounds in
    let (sent, goes_on) = turn received sends in if goes_on then sent ++ rest else sent

-- `Method` is its name.
module _ (http : Http) where
  open http use {HeaderMap, HeaderValue, entries, to_str}

  unfoldable pub insert_headers : List (Text × HeaderValue) → Members → Members
  unfolding insert
  insert_headers [] map = map
  insert_headers ((name, value) ∷ headers) map =
      insert_headers headers (insert name (string (get_or_else (to_str value) (codes "?"))) map)

  unfoldable pub show_headers : Text → HeaderMap → Reply
  unfolding insert_headers
  show_headers method headers = Reply.json (
      object (
        member (codes "method") (string method)
          (member (codes "headers") (object (insert_headers (entries headers) empty)) empty)))

  pub record Request : Type 0 where
    pub method : Text
    pub headers : HeaderMap
    pub body : Bytes

  pub data Handler : Type 0 where
    answers : (Request → Reply) → Handler
    upgrades : (List (Received × Bool) → List Message) → Handler

  -- `get` and `any` of `axum::routing`.
  pub data MethodRouter : Type 0 where
    get : Handler → MethodRouter
    any : Handler → MethodRouter

  unfoldable pub ws_handler : Handler
  unfolding handle_ws
  ws_handler = upgrades handle_ws

  -- The routes of `main`, in order.
  unfoldable pub app : List (Text × MethodRouter)
  unfolding hello echo_method show_headers echo_body ws_handler
  app =
      (codes "/", get (answers (λ r. hello)))
      ∷ (codes "/echo", any (answers (λ r. echo_method r.method)))
      ∷ (codes "/headers", any (answers (λ r. show_headers r.method r.headers)))
      ∷ (codes "/body", any (answers (λ r. echo_body r.method r.body)))
      ∷ (codes "/ws", get ws_handler)
      ∷ []

-- The address that `main` binds, from the arguments after the program's name.
unfoldable pub address : List Text → Text
address [] = codes "0.0.0.0:3000"
address (port ∷ rest) = codes "0.0.0.0:" ++ port
