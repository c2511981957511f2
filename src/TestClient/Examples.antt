-- ===== src/TestClient/Examples.antt =====
-- The test client of examples/test-client and the example server of examples/echo-server: tests, and
-- theorems at inputs.
use tunely.Prelude.{◌≡◌, refl, true, none, some, [], ◌∷◌, ◌++◌, Bool-cases, inl, inr}
use tunely.Prelude.Bytes.{Text, codes, text_eq, text_eq→eq}
use tunely.Prelude.Search.{
  text_contains, text_contains-more_after, text_contains-more_before, text_contains_self,
}
use tunely.External.{plain_http}
use tunely.Relay.Events as Axum
use tunely.EchoServer.{
  Value, Members, string, number, object, empty, member, Reply, handle_ws, insert, insert_headers,
  show_headers, turn, ok,
}
use tunely.TestClient.{HttpLib, WsLib, main, base_of}
use tunely.TestClient.Carried.{mentions, is_mentioned}
use tunely.TestClient.AgainstEcho.{all_tests_pass}
use tunely.TestClient.Direct.{direct, direct-Carries, socket, socket-Linked}

-- A printer of JSON, for texts that need no escapes; it leaves the numbers out.
unfoldable mutual
  print : Value → Text
  print (string s) = codes "\"" ++ (s ++ codes "\"")
  print (number n) = codes "0"
  print (object m) = codes "{" ++ (print_members m ++ codes "}")

  print_members : Members → Text
  print_members empty = []
  print_members (member name value rest) =
      (codes "\"" ++ (name ++ codes "\":")) ++ (print value ++ (codes "," ++ print_members rest))

within :
    (t before text after : Text)
    → text_contains t text ≡ true
    → text_contains t (before ++ (text ++ after)) ≡ true
within t before text after h =
    text_contains-more_before t before (text ++ after) (text_contains-more_after t text after h)

here : (t s : Text) → text_eq s t ≡ true → text_contains t s ≡ true
here t s h = rw (text_eq→eq s t h) (text_contains_self t)

mutual
  unfolding print mentions

  print-mentions : (t : Text) (v : Value) → mentions t v ≡ true → text_contains t (print v) ≡ true
  print-mentions t (string s) h = within t (codes "\"") s (codes "\"") (here t s h)
  print-mentions t (number n) h = cc
  print-mentions t (object m) h =
      within t (codes "{") (print_members m) (codes "}") (print_members-mentions t m h)

  print_members-mentions :
      (t : Text) (m : Members) → is_mentioned t m ≡ true → text_contains t (print_members m) ≡ true
  print_members-mentions t empty h = cc
  print_members-mentions t (member name value rest) h =
      let first = codes "\"" ++ (name ++ codes "\":") in
      let last = codes "," ++ print_members rest in
      elim (Bool-cases (text_eq name t)) [
        | inl e ↦
            text_contains-more_after t first (print value ++ last)
              (within t (codes "\"") name (codes "\":") (here t name e))
        | inr e ↦ elim (Bool-cases (mentions t value)) [
          | inl f ↦ within t first (print value) last (print-mentions t value f)
          | inr f ↦ text_contains-more_before t first (print value ++ last) (
              text_contains-more_before t (print value) last (
                text_contains-more_before t (codes ",") (print_members rest)
                  (print_members-mentions t rest (rw (e, f) at h))))
        ]
      ]

all_tests_pass_example :
    main (direct print) socket [] ≡ some (record { passed = 16; total = 16 }, 0)
unfolding base_of
all_tests_pass_example =
    all_tests_pass (direct print) plain_http socket []
      (direct-Carries print (λ t v plain there. print-mentions t v there)) socket-Linked

-- Where nothing answers and no websocket opens.
abbrev dead : HttpLib
dead = record {
  Method = Text;
  parse = λ t. some t;
  get = codes "GET";
  send = λ m url sent body. none;
}

abbrev no_socket : WsLib
no_socket = record socket { connect_async = λ url. none }

dead_run : main dead no_socket [] ≡ some (record { passed = 0; total = 13 }, 1)
unfolding main
dead_run = refl

-- The last of two values with one name is shown.
repeated_header :
    show_headers plain_http (codes "GET") ((codes "a", codes "1") ∷ (codes "a", codes "2") ∷ [])
    ≡ Reply.json (
        object (
          member (codes "method") (string (codes "GET")) (
            member
              (codes "headers")
              (object (member (codes "a") (string (codes "2")) empty))
              empty)))
unfolding show_headers insert_headers insert text_eq
repeated_header = refl

-- A ping is answered, and nothing after a close is.
echo_loop :
    handle_ws (
      (ok (Axum.Message.ping (1 ∷ [])), true)
      ∷ (ok (Axum.Message.close none), true)
      ∷ (ok (Axum.Message.text (codes "late")), true)
      ∷ [])
    ≡ Axum.Message.pong (1 ∷ []) ∷ []
unfolding handle_ws turn
echo_loop = refl
