-- ===== src/TestClient/Requests.antt =====
-- examples/test-client/src/main.rs: the tests over HTTP, when the requests reach the example server of
-- examples/echo-server/src/main.rs.
use tunely.Prelude.{
  inl, inr, Bool-cases, ◌≡◌, refl, sym, Bool, true, false, ◌||◌, Option, none, some, List, [], ◌∷◌,
  is_some, arith,
}
use tunely.Prelude.Bytes.{Text, codes, text_eq, text_eq→eq, text_eq_refl, contains}
use tunely.Prelude.Search.{text_contains}
use tunely.Prelude.Utf8.{from_utf8_lossy}
use tunely.Prelude.Map.{lookup}
use tunely.External.{Http}
use tunely.EchoServer.{
  Value, Members, empty, member, Reply, Request, MethodRouter, get, any, answers, app, hello,
  echo_method, echo_body, show_headers, insert_headers,
}
use tunely.EchoServer.Maps.{value_of, value_of-insert_headers, last_shown}
use tunely.TestClient.{
  ◌>>=◌, TestResult, HttpLib, pass, payload, test_method, test_body, test_headers, test_http,
}
use tunely.TestClient.Carried.{
  Carries, names, standard, mentions, is_mentioned, body_of, handler_of, is_plain,
}

or_true : (b : Bool) → b || true ≡ true
or_true true = refl
or_true false = refl

-- A name in the map is mentioned.
is_mentioned-value_of :
    (t : Text) (m : Members) → is_some (value_of t m) ≡ true → is_mentioned t m ≡ true
unfolding value_of mentions
is_mentioned-value_of t empty h = cc
is_mentioned-value_of t (member n v rest) h = ground (arith, is_mentioned-value_of t rest)

module _ (headers : Http) where
  last_shown-found :
      (t : Text) (entries : List (Text × headers.HeaderValue)) (found : Option Value)
      → is_some found ≡ true
      → is_some (last_shown headers t entries found) ≡ true
  unfolding last_shown
  last_shown-found t [] found h = h
  last_shown-found t ((n, v) ∷ entries) found h = last_shown-found t entries _ (ground (arith, h))

  last_shown-contains :
      (t : Text) (entries : List (Text × headers.HeaderValue)) (found : Option Value)
      → contains (names entries) t ≡ true
      → is_some (last_shown headers t entries found) ≡ true
  unfolding last_shown
  last_shown-contains t [] found h = cc
  last_shown-contains t ((n, v) ∷ entries) found h = elim (Bool-cases (text_eq t n)) [
    | inl same ↦ last_shown-found t entries _ (rw (text_eq→eq t n same, text_eq_refl n) refl)
    | inr other ↦ last_shown-contains t entries _ (rw other at h)
  ]

  -- A header that arrives is mentioned in what `/headers` answers.
  insert_headers-mentioned :
      (t : Text) (entries : List (Text × headers.HeaderValue))
      → contains (names entries) t ≡ true
      → is_mentioned t (insert_headers headers entries empty) ≡ true
  unfolding value_of
  insert_headers-mentioned t entries h =
      is_mentioned-value_of t _ (
        rw (value_of-insert_headers headers t entries empty) (last_shown-contains t entries none h))

bind-some :
    {o : Option TestResult} {a b : TestResult} (next : TestResult → Option TestResult)
    → o ≡ some a
    → next a ≡ some b
    → (o >>= next) ≡ some b
bind-some next e f = rw e f

-- The routes that the client uses.
module _ (headers : Http) where
  root_route : lookup (codes "/") (app headers) ≡ some (get (answers (λ q. hello)))
  unfolding lookup app text_eq
  root_route = refl

  echo_route :
      lookup (codes "/echo") (app headers) ≡ some (any (answers (λ q. echo_method q.method)))
  unfolding lookup app text_eq
  echo_route = refl

  body_route :
      lookup (codes "/body") (app headers) ≡ some (any (answers (λ q. echo_body q.method q.body)))
  unfolding lookup app text_eq
  body_route = refl

  headers_route :
      lookup (codes "/headers") (app headers)
      ≡ some (any (answers (λ q. show_headers headers q.method q.headers)))
  unfolding lookup app text_eq
  headers_route = refl

  any-answers :
      (f : Request headers → Reply) (method : Text)
      → handler_of headers (any (answers f)) method ≡ some f
  unfolding handler_of
  any-answers f method = refl

  get-answers :
      (f : Request headers → Reply) → handler_of headers (get (answers f)) (codes "GET") ≡ some f
  unfolding handler_of text_eq
  get-answers f = refl

-- The client's requests to the server, one by one.
module _ (http : HttpLib) (headers : Http) (base : Text) (link : Carries http headers base) where
  open link use {
    name, parse-name, name-get, to_string, to_string-mentions, arrived, arrived-names, answered,
  }

  test_method-passes :
      (method path : Text) (router : MethodRouter headers) (f : Request headers → Reply)
      (r : TestResult)
      → contains standard method ≡ true
      → lookup path (app headers) ≡ some router
      → handler_of headers router method ≡ some f
      → test_method http base method path r ≡ some (pass r)
  unfolding test_method
  test_method-passes method path router f r known route handler =
      let (m, parsed, named) = parse-name method known in
      let got = answered path router m f [] [] route (rw (sym named) at handler) in
      elim (Bool-cases (text_eq method (codes "HEAD"))) [
        | inl t ↦ rw (parsed, got, t) refl
        | inr t ↦ rw (parsed, got, t) refl
      ]

  echo_body-contains :
      (method : Text) → text_contains payload (body_of to_string (echo_body method payload)) ≡ true
  unfolding body_of echo_body mentions text_eq from_utf8_lossy is_plain
  echo_body-contains method = to_string-mentions payload _ refl (or_true (text_eq method payload))

  test_body-passes :
      (method : Text) (r : TestResult)
      → contains standard method ≡ true
      → text_eq method (codes "HEAD") ≡ false
      → test_body http base method r ≡ some (pass r)
  unfolding test_body
  test_body-passes method r known other =
      let (m, parsed, named) = parse-name method known in
      let got =
        answered (codes "/body") _ m _ [] payload (body_route headers)
          (any-answers headers _ (name m)) in
      rw (parsed, got, named, other, echo_body-contains method) refl

  show_headers-contains :
      (method : Text)
      → text_contains (codes "x-test") (
          body_of to_string
            (show_headers headers method (arrived ((codes "x-test", codes "tunely") ∷ []))))
        ≡ true
  unfolding body_of show_headers mentions text_eq is_plain
  show_headers-contains method =
      let sent : List (Text × Text) = (codes "x-test", codes "tunely") ∷ [] in
      let there =
        insert_headers-mentioned headers (codes "x-test") (headers.entries (arrived sent))
          (arrived-names sent (codes "x-test") refl) in
      to_string-mentions (codes "x-test") _ refl
        (rw there (or_true (text_eq method (codes "x-test"))))

  test_headers-passes : (r : TestResult) → test_headers http base r ≡ some (pass r)
  unfolding test_headers
  test_headers-passes r =
      let sent : List (Text × Text) = (codes "x-test", codes "tunely") ∷ [] in
      let got =
        answered (codes "/headers") _ http.get _ sent [] (headers_route headers)
          (any-answers headers _ (name http.get)) in
      let other : text_eq (codes "GET") (codes "HEAD") ≡ false = unfold text_eq in refl in
      rw (got, name-get, other, show_headers-contains (codes "GET"), test_headers) refl

  pub test_http-passes :
      (r : TestResult)
      → test_http http base r
        ≡ some (pass (pass (pass (pass (pass (pass (pass (pass (pass (pass (pass (pass r))))))))))))
  unfolding test_http text_eq
  test_http-passes r =
      let root =
        test_method-passes (codes "GET") (codes "/") _ _ r refl (root_route headers)
          (get-answers headers _) in
      let echo = λ (method : Text) (known : contains standard method ≡ true) (r : TestResult).
        test_method-passes method (codes "/echo") _ _ r known (echo_route headers)
          (any-answers headers _ method) in
      bind-some _ root (
        bind-some _ (echo (codes "GET") refl _) (
          bind-some _ (echo (codes "POST") refl _) (
            bind-some _ (echo (codes "PUT") refl _) (
              bind-some _ (echo (codes "PATCH") refl _) (
                bind-some _ (echo (codes "DELETE") refl _) (
                  bind-some _ (echo (codes "OPTIONS") refl _) (
                    bind-some _ (echo (codes "HEAD") refl _) (
                      bind-some _ (test_body-passes (codes "POST") _ refl refl) (
                        bind-some _ (test_body-passes (codes "PUT") _ refl refl) (
                          bind-some _ (test_body-passes (codes "PATCH") _ refl refl)
                            (test_headers-passes _)))))))))))
