-- ===== src/TestClient/Socket.antt =====
-- examples/test-client/src/main.rs: the tests over a websocket, when it leads to the loop of the example
-- server, in examples/echo-server/src/main.rs.
use tunely.Prelude.{ℕ, suc, ◌≡◌, refl, ◌∙◌, ap, none, some, List, [], ◌∷◌, ◌++◌}
use tunely.Prelude.Bytes.{Text, codes, text_eq, strip_prefix}
use tunely.Prelude.Search.{text_contains}
use tunely.Relay.Events as Axum
use tunely.EchoServer.{handle_ws, turn}
use tunely.TestClient.{
  TestResult, WsLib, pass, data_sent, test_ws, test_conn, text_echoed, binary_echoed,
}
use tunely.TestClient.Carried.{Linked, message_at, read_by_server, to_client}

-- One message of the client, and what it reads next.
exchange :
    (ws : WsLib) (base : Text) (link : Linked ws base) (c : ws.Conn) (before : List Axum.Message)
    (n : ℕ) (m reply : Axum.Message)
    → link.sent c ≡ before
    → link.taken c ≡ n
    → message_at n (handle_ws (read_by_server (before ++ (m ∷ [])))) ≡ some reply
    → (d : ws.Conn) × (e : ws.Conn) × (ws.send c (to_client m) ≡ some d)
      × (ws.next d ≡ (some (to_client reply), e))
      × (link.sent e ≡ before ++ (m ∷ []))
      × (link.taken e ≡ suc n)
exchange ws base link c before n m reply s t answer =
    let (d, sent, s1, t1) = link.sends c m in
    let (e, read, s2, t2) = link.reads d reply (rw (s1, t1, s, t) answer) in
    (d, e, sent, read, s2 ∙ s1 ∙ ap (λ l. l ++ (m ∷ [])) s, t2 ∙ ap suc (t1 ∙ t))

-- The websocket tests.
pub test_ws-passes :
    (ws : WsLib) (base : Text) (link : Linked ws base) (r : TestResult)
    → test_ws ws base r ≡ some (pass (pass (pass (pass r))))
unfolding test_ws test_conn text_echoed binary_echoed message_at handle_ws turn text_eq
    text_contains strip_prefix
test_ws-passes ws base link r =
    let hello : Axum.Message = Axum.Message.text (codes "hello tunely") in
    let (c0, opened, s0, t0) = link.opens in
    let (c1, c2, sent1, read2, s2, t2) =
      exchange ws base link c0 [] 0 hello (Axum.Message.text (codes "echo: hello tunely")) s0 t0
        refl in
    let (c3, c4, sent3, read4, s4, t4) =
      exchange ws base link c2 (hello ∷ []) 1 (Axum.Message.binary data_sent)
        (Axum.Message.binary data_sent) s2 t2 refl in
    let (c5, sent5, _, _) = link.sends c4 (Axum.Message.close none) in
    let text_back = link.into_text-text (codes "echo: hello tunely") in
    rw (opened, sent1, read2, sent3, read4, sent5, text_back, test_ws) refl
