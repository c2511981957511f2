-- ===== src/Agent/WsStream/Outcome.antt =====
-- crates/agent/src/relay_client.rs: how the task of a stream ends.
use tunely.Prelude.{
  Bool, ◌≡◌, ◌⊎◌, inl, inr, refl, true, false, Option, none, some, List, [], ◌++◌, arith,
  Bool-cases, Option-cases,
}
use tunely.Prelude.Bytes.{Text, codes}
use tunely.Prelude.Map.{lookup, insert, lookup-remove_self}
use tunely.External.{Http}
use tunely.Protocol.Message.{ControlMessage, Json}
use tunely.Agent.Events.{Message, Sender, Sent, Accepts, send_control}
use tunely.Agent.RelayClient.{RuntimeCtx, WsConnectRequest}
use tunely.Agent.LocalProxy.{UrlLib, compose_local_ws_url}
use tunely.Agent.WsStream.{Sessions, apply_ops, cleanup_ws_session, stream_loop}
use tunely.Agent.WsStream.Connect.{
  Attempt, ok, err, WsLib, Phases, Stream, run_connected, run_one_ws_stream, handle_ws_connect,
  ws_request_headers, ws_request_protocols,
}

Attempt-cases {ℓ} :
    {A : Type ℓ} (x : Attempt A) → ((a : A) × (x ≡ ok a)) ⊎ ((text : Text) × (x ≡ err text))
Attempt-cases (ok a) = inl (a, refl)
Attempt-cases (err text) = inr (text, refl)

-- A send that fails puts nothing on the channel.
send_control-failed :
    (json : Json) (accepts : Accepts) (tx : Sender) (msg : ControlMessage)
    → (send_control json accepts tx msg).1 ≡ false
    → (send_control json accepts tx msg).0 ≡ []
unfolding send_control
send_control-failed json accepts tx msg h = ground arith

module _ (http : Http) (url : UrlLib) (json : Json) (ctx : RuntimeCtx) (p : Phases http url)
    (ws : WsLib http url) (m : Sessions) (request : WsConnectRequest) where
  -- The local server takes the request, and answers it with these headers.
  abbrev pub ConnectsTo : http.HeaderMap → Type 0
  ConnectsTo answer =
      (local_url : url.Url) × (client_request : ws.ClientRequest) × (compose_local_ws_url url
          ctx.local_base request.path_and_query
        ≡ some local_url)
      × (ws.into_client_request local_url ≡ ok client_request)
      × (ws.connect_async client_request (ws_request_headers http request.headers)
            (ws_request_protocols http request.subprotocols)
          ≡ ok answer)

  -- The subprotocol that the local server chose.
  abbrev pub chosen : http.HeaderMap → Option Text
  chosen answer = elim (http.get answer (codes "sec-websocket-protocol")) [
    | none ↦ none
    | some value ↦ http.to_str value
  ]

  -- What the relay is told when the stream is accepted, and when it is refused.
  abbrev pub acceptance : http.HeaderMap → List Sent × Bool
  acceptance answer =
      send_control json p.ack_accepts ctx.relay_tx
        (ControlMessage.ws_connect_ack request.stream_id true (chosen answer) none)

  abbrev pub refusal : Text → List Sent
  refusal text =
      (send_control json p.refusal_accepts ctx.relay_tx
        (ControlMessage.ws_connect_ack request.stream_id false none (some text))).0

  -- The loop of the stream, from the table with the stream in it.
  abbrev pub looped : Sessions × List Sent × List Message × Bool
  looped =
      stream_loop json ctx request.stream_id
        (insert request.stream_id p.in_tx (apply_ops m p.before)) p.rounds

  -- The acceptance was delivered, with the subprotocol of the local server's answer, and was followed
  -- by what the loop sent and nothing else.
  abbrev pub Accepted : List Sent → List Message → Type 0
  Accepted sent shown =
      (answer : http.HeaderMap) × ConnectsTo answer
      × ((acceptance answer).1 ≡ true)
      × (sent ≡ (acceptance answer).0 ++ looped.1)
      × (shown ≡ looped.2)

  -- What holds of a stream that returned in some way, or has not yet.
  abbrev pub Ended : Sessions → List Sent → List Message → Option (Attempt (Unit {0})) → Type 0
  Ended after sent shown none = Accepted sent shown
  Ended after sent shown (some (ok u)) =
      (lookup request.stream_id after ≡ none) × Accepted sent shown
  Ended after sent shown (some (err text)) =
      (lookup request.stream_id after ≡ none) × (sent ≡ refusal text) × (shown ≡ [])

  -- The same for `run_one_ws_stream`, which leaves a refusal to its caller.
  abbrev Ran : Sessions → List Sent → List Message → Option (Attempt (Unit {0})) → Type 0
  Ran after sent shown none = Accepted sent shown
  Ran after sent shown (some (ok u)) = (lookup request.stream_id after ≡ none) × Accepted sent shown
  Ran after sent shown (some (err text)) = (sent ≡ []) × (shown ≡ [])

  abbrev RanOf : Stream → Type 0
  RanOf r = Ran r.0 r.1 r.2 r.3

  run_connected-Ran :
      (answer : http.HeaderMap)
      → ConnectsTo answer
      → RanOf (run_connected http url json ctx p m request.stream_id answer)
  unfolding run_connected cleanup_ws_session
  run_connected-Ran answer connects = elim (Bool-cases (acceptance answer).1) [
    | inr failed ↦ rw failed (send_control-failed json p.ack_accepts ctx.relay_tx _ failed, refl)
    | inl delivered ↦ elim (Bool-cases looped.3) [
      | inl over ↦
          rw (delivered, over)
            (
              lookup-remove_self request.stream_id (apply_ops looped.0 p.closing),
              (answer, connects, delivered, refl, refl),
            )
      | inr runs ↦ rw (delivered, runs) (answer, connects, delivered, refl, refl)
    ]
  ]

  run_one_ws_stream-Ran : RanOf (run_one_ws_stream http url ws json ctx p m request)
  unfolding run_one_ws_stream
  run_one_ws_stream-Ran =
      elim (Option-cases (compose_local_ws_url url ctx.local_base request.path_and_query)) [
        | inl bad ↦ rw (bad, run_one_ws_stream) (refl, refl)
        | inr (local_url, good) ↦ elim (Attempt-cases (ws.into_client_request local_url)) [
          | inr (text, bad) ↦ rw (good, bad, run_one_ws_stream) (refl, refl)
          | inl (client_request, made) ↦
              elim (Attempt-cases (
                ws.connect_async client_request (ws_request_headers http request.headers)
                  (ws_request_protocols http request.subprotocols))) [
                    | inr (text, bad) ↦ rw (good, made, bad, run_one_ws_stream) (refl, refl)
                    | inl (answer, connected) ↦
                        let ran =
                          run_connected-Ran answer
                            (local_url, client_request, good, made, connected) in
                        rw (good, made, connected, run_one_ws_stream) ran
                  ]
        ]
      ]

  -- The task of a stream leaves nothing behind and tells the relay one outcome. Once it has returned,
  -- the stream is not in the agent's table. If it returned without an error, or still runs, then it
  -- delivered that the stream is accepted, with the subprotocol that the local server chose in its
  -- answer, and after that it sent what its loop sends, and nothing else. If it returned with an
  -- error, it sent nothing but a refusal with the error's text, as far as the channel takes it, and
  -- the local server got no message.
  pub handle_ws_connect-Ended :
      let r = handle_ws_connect http url ws json ctx p m request in Ended r.0 r.1 r.2 r.3
  unfolding handle_ws_connect
  handle_ws_connect-Ended =
      let r = run_one_ws_stream http url ws json ctx p m request in
      let ran : RanOf r = run_one_ws_stream-Ran in
      elim (Option-cases r.3) [
        | inl runs ↦
            let told : Ran r.0 r.1 r.2 none = rw runs at ran in rw (runs, handle_ws_connect) told
        | inr (result, returned) ↦ elim (Attempt-cases result) [
          | inl (u, good) ↦
              let told : Ran r.0 r.1 r.2 (some (ok u)) = rw (returned, good) at ran in
              rw (returned, good, handle_ws_connect) told
          | inr (text, bad) ↦
              let told : Ran r.0 r.1 r.2 (some (err text)) = rw (returned, bad) at ran in
              rw (returned, bad, handle_ws_connect)
                (lookup-remove_self request.stream_id (apply_ops r.0 p.closing), rw told.0, told.1)
        ]
      ]
