-- ===== src/TestClient/Counters.antt =====
-- examples/test-client/src/main.rs: how many tests are counted, and what the exit code tells.
use tunely.Prelude.{
  ℕ, suc, ◌+◌, ◌≤◌, ◌<◌, ◌≡◌, ◌≢◌, ◌↔◌, inl, inr, refl, Bool, true, false, ◌&&◌, Option, none, some,
  List, [], ◌∷◌, ◌++◌, if◌then◌else◌, get_or_else, is_some, Bool-cases, Option-cases, arith,
}
use tunely.Prelude.Bytes.{Text, codes, text_eq}
use tunely.Prelude.Search.{text_contains}
use tunely.Agent.Events.{Message}
use tunely.TestClient.{
  ◌>>=◌, TestResult, new, pass, fail, judge, payload, data_sent, HttpLib, WsLib, test_method,
  test_body, test_headers, test_http, text_echoed, binary_echoed, test_conn, test_ws, http_to_ws,
  base_of, exit_code, main,
}

-- So many tests are counted, and no more have passed.
pub HasRun : ℕ → TestResult → Type 0
HasRun n r = (r.total ≡ n) × (r.passed ≤ n)

Counted : ℕ → Option TestResult → Type 0
Counted n o = (r : TestResult) × (o ≡ some r) × HasRun n r

judge-HasRun :
    (met : Bool) (n : ℕ) (r : TestResult) → n < 100 → HasRun n r → HasRun (suc n) (judge met r)
unfolding HasRun pass fail
judge-HasRun true n r small h = (omega (arith, h.0), omega (arith, h.1))
judge-HasRun false n r small h = (omega (arith, h.0), omega (arith, h.1))

judge-Counted :
    (met : Bool) (n : ℕ) (r : TestResult)
    → n < 100
    → HasRun n r
    → Counted (suc n) (some (judge met r))
unfolding Counted
judge-Counted met n r small h = (judge met r, refl, judge-HasRun met n r small h)

bind-Counted :
    (n m : ℕ) (o : Option TestResult) (next : TestResult → Option TestResult)
    → Counted n o
    → ((r : TestResult) → HasRun n r → Counted m (next r))
    → Counted m (o >>= next)
unfolding Counted
bind-Counted n m o next (r, e, h) go = rw e (go r h)

module _ (http : HttpLib) (base : Text) (knows : (m : Text) → is_some (http.parse m) ≡ true) where
  test_method-Counted :
      (method path : Text) (n : ℕ) (r : TestResult)
      → n < 100
      → HasRun n r
      → Counted (suc n) (test_method http base method path r)
  unfolding test_method
  test_method-Counted method path n r small h = elim (Option-cases (http.parse method)) [
    | inl e ↦ let k = knows method in cc
    | inr (m, e) ↦ rw e (elim (Option-cases (http.send m (base ++ path) [] [])) [
      | inl f ↦ rw f (judge-Counted false n r small h)
      | inr (resp, f) ↦ elim (Bool-cases (text_eq method (codes "HEAD"))) [
        | inl t ↦ rw (f, t) (judge-Counted resp.is_success n r small h)
        | inr t ↦ rw (f, t) (judge-Counted resp.is_success n r small h)
      ]
    ])
  ]

  test_body-Counted :
      (method : Text) (n : ℕ) (r : TestResult)
      → n < 100
      → HasRun n r
      → Counted (suc n) (test_body http base method r)
  unfolding test_body
  test_body-Counted method n r small h = elim (Option-cases (http.parse method)) [
    | inl e ↦ let k = knows method in cc
    | inr (m, e) ↦ rw e (elim (Option-cases (http.send m (base ++ codes "/body") [] payload)) [
      | inl f ↦ rw f (judge-Counted false n r small h)
      | inr (resp, f) ↦ rw f (
          judge-Counted (resp.is_success && text_contains payload (get_or_else resp.text [])) n r
            small h)
    ])
  ]

  test_headers-Counted :
      (n : ℕ) (r : TestResult) → n < 100 → HasRun n r → Counted (suc n) (test_headers http base r)
  unfolding test_headers
  test_headers-Counted n r small h =
      elim (Option-cases (
        http.send http.get (base ++ codes "/headers") ((codes "x-test", codes "tunely") ∷ []) [])) [
          | inl f ↦ rw (f, test_headers) (judge-Counted false n r small h)
          | inr (resp, f) ↦
              rw (f, test_headers)
                (judge-Counted
                  (resp.is_success && text_contains (codes "x-test") (get_or_else resp.text [])) n r
                  small h)
        ]

  test_http-Counted : (r : TestResult) → HasRun 0 r → Counted 12 (test_http http base r)
  unfolding test_http
  test_http-Counted r h =
      bind-Counted _ _ _ _ (test_method-Counted (codes "GET") (codes "/") 0 r (omega arith) h)
        λ r h.
          bind-Counted _ _ _ _
            (test_method-Counted (codes "GET") (codes "/echo") 1 r (omega arith) h)
            λ r h.
              bind-Counted _ _ _ _
                (test_method-Counted (codes "POST") (codes "/echo") 2 r (omega arith) h)
                λ r h.
                  bind-Counted _ _ _ _
                    (test_method-Counted (codes "PUT") (codes "/echo") 3 r (omega arith) h)
                    λ r h.
                      bind-Counted _ _ _ _
                        (test_method-Counted (codes "PATCH") (codes "/echo") 4 r (omega arith) h)
                        λ r h.
                          bind-Counted _ _ _ _
                            (test_method-Counted (codes "DELETE") (codes "/echo") 5 r (omega arith)
                              h)
                            λ r h.
                              bind-Counted _ _ _ _
                                (test_method-Counted (codes "OPTIONS") (codes "/echo") 6 r
                                  (omega arith) h)
                                λ r h.
                                  bind-Counted _ _ _ _
                                    (test_method-Counted (codes "HEAD") (codes "/echo") 7 r
                                      (omega arith) h)
                                    λ r h.
                                      bind-Counted _ _ _ _
                                        (test_body-Counted (codes "POST") 8 r (omega arith) h)
                                        λ r h.
                                          bind-Counted _ _ _ _
                                            (test_body-Counted (codes "PUT") 9 r (omega arith) h)
                                            λ r h.
                                              bind-Counted _ _ _ _
                                                (test_body-Counted (codes "PATCH") 10 r
                                                  (omega arith) h)
                                                λ r h. test_headers-Counted 11 r (omega arith) h

module _ (ws : WsLib)
    (sends : (c : ws.Conn) (m : Message)
      → m ≢ Message.close none
      → is_some (ws.send c m) ≡ true) where
  text_echoed-HasRun :
      (n : ℕ) (msg : Option Message) (r : TestResult)
      → n < 100
      → HasRun n r
      → HasRun (suc n) (text_echoed ws msg r)
  unfolding text_echoed
  text_echoed-HasRun n none r small h = judge-HasRun false n r small h
  text_echoed-HasRun n (some msg) r small h = judge-HasRun _ n r small h

  binary_echoed-HasRun :
      (n : ℕ) (msg : Option Message) (r : TestResult)
      → n < 100
      → HasRun n r
      → HasRun (suc n) (binary_echoed ws msg r)
  unfolding binary_echoed
  binary_echoed-HasRun n none r small h = judge-HasRun false n r small h
  binary_echoed-HasRun n (some (Message.binary bytes)) r small h = judge-HasRun _ n r small h
  binary_echoed-HasRun n (some (Message.text t)) r small h = judge-HasRun false n r small h
  binary_echoed-HasRun n (some (Message.ping t)) r small h = judge-HasRun false n r small h
  binary_echoed-HasRun n (some (Message.pong t)) r small h = judge-HasRun false n r small h
  binary_echoed-HasRun n (some (Message.close t)) r small h = judge-HasRun false n r small h
  binary_echoed-HasRun n (some (Message.raw_frame t)) r small h = judge-HasRun false n r small h

  -- What a send that is not the last gives.
  sent :
      (c : ws.Conn) (m : Message) → m ≢ Message.close none → (d : ws.Conn) × (ws.send c m ≡ some d)
  sent c m other = elim (Option-cases (ws.send c m)) [
    | inl e ↦ let k = sends c m other in cc
    | inr (d, e) ↦ (d, e)
  ]

  test_conn-Counted :
      (n : ℕ) (c : ws.Conn) (r : TestResult)
      → n < 90
      → HasRun n r
      → Counted (n + 3) (test_conn ws c r)
  unfolding test_conn Counted
  test_conn-Counted n c r small h =
      let (c1, e1) = sent c (Message.text (codes "hello tunely")) (λ e. cc) in
      let (c2, e2) = sent (ws.next c1).1 (Message.binary data_sent) (λ e. cc) in
      let h1 = text_echoed-HasRun n (ws.next c1).0 r (omega arith) h in
      let h2 = binary_echoed-HasRun (suc n) (ws.next c2).0 _ (omega arith) h1 in
      let three : n + 3 ≡ suc (suc (suc n)) = omega arith in
      rw (e1, e2, three) (judge-Counted _ (suc (suc n)) _ (omega arith) h2)

  test_ws-Counted :
      (base : Text) (r : TestResult)
      → HasRun 12 r
      → Counted
          (if is_some (ws.connect_async (http_to_ws base ++ codes "/ws")) then 16 else 13)
          (test_ws ws base r)
  unfolding test_ws
  test_ws-Counted base r h =
      elim (Option-cases (ws.connect_async (http_to_ws base ++ codes "/ws"))) [
        | inl e ↦ rw (e, test_ws) (judge-Counted false 12 r (omega arith) h)
        | inr (c, e) ↦
            rw (e, test_ws)
              (test_conn-Counted 13 c (pass r) (omega arith)
                (judge-HasRun true 12 r (omega arith) h))
      ]

exit_code_iff : (r : TestResult) → (exit_code r ≡ 0) ↔ (r.passed ≡ r.total)
unfolding exit_code
exit_code_iff r = (λ h. ground arith, λ h. ground arith)

-- If the program's methods parse and its websocket takes the text and the bytes, the program ends; it
-- has counted 16 tests, or 13 if the websocket did not open, no more have passed than were counted, and
-- it exits with 0 exactly if all have passed.
pub tests_counted :
    (http : HttpLib) (ws : WsLib) (args : List Text)
    → ((m : Text) → is_some (http.parse m) ≡ true)
    → ((c : ws.Conn) (m : Message) → m ≢ Message.close none → is_some (ws.send c m) ≡ true)
    → (r : TestResult) × (main http ws args ≡ some (r, exit_code r))
      × (r.total ≡ (
          if is_some (ws.connect_async (http_to_ws (base_of args) ++ codes "/ws")) then 16 else 13))
      × (r.passed ≤ r.total)
      × ((exit_code r ≡ 0) ↔ (r.passed ≡ r.total))
unfolding main Counted HasRun
tests_counted http ws args knows sends =
    let (r1, e1, h1) = test_http-Counted http (base_of args) knows new (refl, omega arith) in
    let (r2, e2, h2) = test_ws-Counted ws sends (base_of args) r1 h1 in
    (r2, rw (e1, e2) refl, h2.0, omega (arith, h2.0, h2.1), exit_code_iff r2)
