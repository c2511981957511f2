-- ===== src/TestClient.antt =====
-- examples/test-client/src/main.rs: the program that tests a tunnel to the example server. The
-- libraries reqwest and tokio-tungstenite are parameters. A call that would panic, in an `unwrap`, is
-- `none`. The labels and details that the program prints are left out.
use tunely.Prelude.{
  ℕ, ◌+◌, ◌%◌, ◌^◌, ◌==◌, Bool, true, false, ◌&&◌, Option, none, some, List, [], ◌∷◌, ◌++◌,
  if◌then◌else◌, get_or_else, is_some,
}
use tunely.Prelude.Bytes.{Text, codes, text_eq, strip_prefix}
use tunely.Prelude.Search.{text_contains}
use tunely.Agent.Events.{Message}
mod Counters
pub mod Carried
mod Requests
mod Socket
mod AgainstEcho
mod Direct
mod Examples

infixl 5 ◌>>=◌
abbrev pub ◌>>=◌ {ℓ κ} : {A : Type ℓ} {B : Type κ} → Option A → (A → Option B) → Option B
none >>= next = none
some a >>= next = next a

-- Two `u32`s.
pub record TestResult : Type 0 where
  pub passed : ℕ
  pub total : ℕ

abbrev pub new : TestResult
new = record { passed = 0; total = 0 }

unfoldable pub pass : TestResult → TestResult
pass r = record r { passed = (r.passed + 1) % 2 ^ 32; total = (r.total + 1) % 2 ^ 32 }

unfoldable pub fail : TestResult → TestResult
fail r = record r { total = (r.total + 1) % 2 ^ 32 }

unfoldable pub http_to_ws : Text → Text
unfolding strip_prefix
http_to_ws url = elim (strip_prefix (codes "https://") url) [
  | some rest ↦ codes "wss://" ++ rest
  | none ↦ elim (strip_prefix (codes "http://") url) [
    | some rest ↦ codes "ws://" ++ rest
    | none ↦ url
  ]
]

-- What reqwest answers a request with: whether the status is a success, and what reading the text
-- gives.
pub record Response : Type 0 where
  pub is_success : Bool
  pub text : Option Text

pub record HttpLib : Type 1 where
  -- `str::parse` at `reqwest::Method`, and `Method::GET`
  pub Method : Type 0
  pub parse : Text → Option Method
  pub get : Method
  -- The method, the address, the headers and the body; `none` stands for an error.
  pub send : Method → Text → List (Text × Text) → Text → Option Response

pub record WsLib : Type 1 where
  pub Conn : Type 0
  -- `none` stands for an error
  pub connect_async : Text → Option Conn
  pub send : Conn → Message → Option Conn
  -- `none` stands for the end of the stream and for an error
  pub next : Conn → Option Message × Conn
  -- `Message::into_text`
  pub into_text : Message → Option Text

abbrev pub payload : Text
payload = codes "hello tunely body"

-- `r` is passed if the test is met, and failed otherwise.
abbrev pub judge : Bool → TestResult → TestResult
judge met r = if met then pass r else fail r

module _ (http : HttpLib) (base : Text) where
  unfoldable pub test_method : Text → Text → TestResult → Option TestResult
  unfolding pass fail
  test_method method path r = do
    http_method ← http.parse method
    elim (http.send http_method (base ++ path) [] []) [
      | none ↦ some (fail r)
      | some resp ↦
          if text_eq method (codes "HEAD")
          then some (judge resp.is_success r)
          else some (judge resp.is_success r)
    ]

  unfoldable pub test_body : Text → TestResult → Option TestResult
  unfolding pass fail text_contains
  test_body method r = do
    http_method ← http.parse method
    elim (http.send http_method (base ++ codes "/body") [] payload) [
      | none ↦ some (fail r)
      | some resp ↦
          let body_echoed = text_contains payload (get_or_else resp.text []) in
          some (judge (resp.is_success && body_echoed) r)
    ]

  unfoldable pub test_headers : TestResult → Option TestResult
  unfolding pass fail text_contains
  test_headers r =
      elim (http.send http.get (base ++ codes "/headers") ((codes "x-test", codes "tunely") ∷ [])
        []) [
          | none ↦ some (fail r)
          | some resp ↦
              let has_header = text_contains (codes "x-test") (get_or_else resp.text []) in
              some (judge (resp.is_success && has_header) r)
        ]

  unfoldable pub test_http : TestResult → Option TestResult
  unfolding test_method test_body test_headers
  test_http r = do
    r ← test_method (codes "GET") (codes "/") r
    r ← test_method (codes "GET") (codes "/echo") r
    r ← test_method (codes "POST") (codes "/echo") r
    r ← test_method (codes "PUT") (codes "/echo") r
    r ← test_method (codes "PATCH") (codes "/echo") r
    r ← test_method (codes "DELETE") (codes "/echo") r
    r ← test_method (codes "OPTIONS") (codes "/echo") r
    r ← test_method (codes "HEAD") (codes "/echo") r
    r ← test_body (codes "POST") r
    r ← test_body (codes "PUT") r
    r ← test_body (codes "PATCH") r
    test_headers r

abbrev pub data_sent : List ℕ
data_sent = 0xDE ∷ 0xAD ∷ 0xBE ∷ 0xEF ∷ []

module _ (ws : WsLib) where
  open ws use {Conn, connect_async, send, next, into_text}

  -- What the client makes of what it reads after its text, and after its bytes.
  unfoldable pub text_echoed : Option Message → TestResult → TestResult
  unfolding pass fail text_contains
  text_echoed none r = fail r
  text_echoed (some msg) r =
      judge (text_contains (codes "hello tunely") (get_or_else (into_text msg) [])) r

  unfoldable pub binary_echoed : Option Message → TestResult → TestResult
  unfolding pass fail
  binary_echoed (some (Message.binary bytes)) r = judge (text_eq bytes data_sent) r
  binary_echoed (some other) r = fail r
  binary_echoed none r = fail r

  -- The connection is there.
  unfoldable pub test_conn : Conn → TestResult → Option TestResult
  unfolding text_echoed binary_echoed pass fail
  test_conn conn r = do
    conn ← send conn (Message.text (codes "hello tunely"))
    let (msg, conn) = next conn
    let r = text_echoed msg r
    conn ← send conn (Message.binary data_sent)
    let (msg, conn) = next conn
    let r = binary_echoed msg r
    some (judge (is_some (send conn (Message.close none))) r)

  unfoldable pub test_ws : Text → TestResult → Option TestResult
  unfolding test_conn http_to_ws pass fail
  test_ws base r = elim (connect_async (http_to_ws base ++ codes "/ws")) [
    | none ↦ some (fail r)
    | some conn ↦ test_conn conn (pass r)
  ]

-- The address under test, from the arguments after the program's name.
unfoldable pub base_of : List Text → Text
base_of [] = codes "http://127.0.0.1:8080/t/demo"
base_of (base ∷ rest) = base

unfoldable pub exit_code : TestResult → ℕ
exit_code r = if r.passed == r.total then 0 else 1

-- The counters at the end, and the code the program exits with.
unfoldable pub main : HttpLib → WsLib → List Text → Option (TestResult × ℕ)
unfolding base_of test_http test_ws exit_code
main http ws args = do
  r ← test_http http (base_of args) new
  r ← test_ws ws (base_of args) r
  some (r, exit_code r)
