-- ===== src/Exchange/Whole.antt =====
-- One HTTP request all the way: from `handle_ingress` of crates/relay-server/src/http_ingress.rs to the
-- agent's loop and its `proxy_one_request` in crates/agent/src/relay_client.rs, the local server, and
-- back to the client.
use tunely.Prelude.{
  ◌≡◌, ◌*◌, refl, ap, sym, ◌∙◌, true, Option, some, List, [], ◌∷◌, ◌++◌, map, length, get_or_else,
  append-nil,
}
use tunely.Prelude.Bytes.{Text, Bytes}
use tunely.Prelude.Map.{lookup}
use tunely.External.{Http}
use tunely.Protocol.{is_supported_protocol_version}
use tunely.Protocol.Message.{ControlMessage, Json}
use tunely.Agent.Events
use tunely.Agent.Handshake.{IsFaithful}
use tunely.Agent.LocalProxy.{
  UrlLib, compose_local_url, apply_forward_headers, flatten_response_headers,
}
use tunely.Agent.RelayClient.{
  RuntimeCtx, ProxyRequest, Tables, Spawned, proxy_one_request, handle_ws_connect,
}
use tunely.Agent.Proxy
use tunely.Agent.Proxy.{LocalResponse, Client, relay_response, proxy_task}
use tunely.Agent.Proxy.Replies.{take_replies, nonempty, events, IsOpen}
use tunely.Relay.Events.{Accepts}
use tunely.Relay.State.{AppState, AgentHandle, get_agent}
use tunely.Relay.WsSession.{Session}
use tunely.Relay.HttpIngress.{
  Context, Request, streamed, apply_forwarded_headers, handle_ingress, extract_target_path,
  flatten_headers,
}
use tunely.Relay.HttpIngress.Upload.{HasFailure}
use tunely.Exchange.Sending.{TakesAll, start_message, end_message}
use tunely.Exchange.Request.{Handled, take_sent, request_reaches_agent}
use tunely.Exchange.Answer.{Log, waits_of, InTime, client_gets_local_answer}

module _ (http : Http) (url : UrlLib) (client : Client http url) (json : Json) where
  -- What the tasks send that answer HTTP requests, one after another.
  unfoldable pub replies_of : Events.Accepts → RuntimeCtx → Text → List Spawned → List Events.Sent
  replies_of accepts ctx error_text [] = []
  replies_of accepts ctx error_text (proxy_one_request request ∷ tasks) =
      proxy_task http url client json accepts ctx request error_text
      ++ replies_of accepts ctx error_text tasks
  replies_of accepts ctx error_text (handle_ws_connect request ∷ tasks) =
      replies_of accepts ctx error_text tasks

  proxy_task-answered :
      (accepts : Events.Accepts) (ctx : RuntimeCtx) (request : ProxyRequest)
      (error_text method : Text) (local_url : url.Url) (response : LocalResponse http)
      → compose_local_url url ctx.local_base request.path_and_query ≡ some local_url
      → client.method_from_bytes request.method ≡ some method
      → client.exchange method local_url
          (apply_forward_headers http request.headers)
          request.body_rx
        ≡ some response
      → (relay_response http json accepts ctx request.request_id response).1 ≡ true
      → proxy_task http url client json accepts ctx request error_text
        ≡ (relay_response http json accepts ctx request.request_id response).0
  unfolding proxy_task Proxy.proxy_one_request
  proxy_task-answered accepts ctx request error_text method local_url response composed known
        answered whole =
      rw (composed, known, answered, whole, proxy_task, Proxy.proxy_one_request) refl

  one_task :
      (accepts : Events.Accepts) (ctx : RuntimeCtx) (request : ProxyRequest) (error_text : Text)
      → replies_of accepts ctx error_text (proxy_one_request request ∷ [])
        ≡ proxy_task http url client json accepts ctx request error_text
  unfolding replies_of
  one_task accepts ctx request error_text = append-nil _

module _ (http : Http) (url : UrlLib) (client : Client http url) where
  -- A client's request under a tunnel gets the answer that the local server gives to it: to the same
  -- method, the path under the tunnel at the local address, and the headers that both ends pass, with
  -- the channel that the body goes through. The tasks that the agent starts for the relay's messages
  -- call the local server, and their replies, taken by the relay's session, are what the client's
  -- handler hears. The client gets the status (502 for one that is no status code), the headers that
  -- pass both ends, and the non-empty chunks of the body in order. This holds if the agent is there
  -- with its channel open, both ends' versions are supported, the session and the handler use the same
  -- JSON and the four control messages survive it, the client's body can be read and the agent's
  -- channel for it is open, the local address can be formed, the HTTP client knows the method and
  -- gets the local server's answer, this is sent whole, the request is still waited for on an open
  -- channel, its first event comes in time, and the identifier has 16 bytes.
  pub tunnel_is_transparent :
      (c : Context http) (st : AppState) (tunnel_id tail_path : Text) (path_and_query : Option Text)
      (request : Request http) (log : Log) (agent : AgentHandle) (s : Session) (ok : Accepts)
      (at_session : AppState) (accepts : Events.Accepts) (ctx : RuntimeCtx) (t : Tables)
      (body : Events.Sender) (response : LocalResponse http) (error_text method : Text)
      (local_url : url.Url)
      → s.json ≡ c.json
      → get_agent st tunnel_id ≡ some agent
      → TakesAll c.accepts agent.sender
      → IsFaithful c.json (start_message http c tunnel_id tail_path path_and_query request)
      → IsFaithful c.json (end_message http c)
      → ¬ HasFailure request.body
      → is_supported_protocol_version agent.protocol_version ≡ true
      → is_supported_protocol_version ctx.relay_frame_version ≡ true
      → length c.request_id ≡ 16
      → ((p : Bytes) → accepts body (Events.body_chunk p) ≡ true)
      → compose_local_url url ctx.local_base
          (extract_target_path path_and_query tunnel_id tail_path)
        ≡ some local_url
      → client.method_from_bytes request.method ≡ some method
      → client.exchange method local_url
          (apply_forward_headers http (flatten_headers http request.headers))
          body
        ≡ some response
      → IsFaithful s.json (
          ControlMessage.http_response_start c.request_id response.status
            (flatten_response_headers http response.headers))
      → IsFaithful s.json (ControlMessage.http_response_end c.request_id)
      → lookup c.request_id at_session.inflight ≡ some c.tx
      → IsOpen ok c.tx
      → (relay_response http c.json accepts ctx c.request_id response).1 ≡ true
      → events c.tx (map (λ e. e.1) log)
        ≡ (take_replies s ok at_session (
            replies_of http url client c.json accepts ctx error_text
              (take_sent c.json ctx accepts body t
                (handle_ingress http c st tunnel_id tail_path path_and_query request
                  (waits_of log)).1).2)).1
      → InTime (st.request_timeout_secs * 1_000_000_000) log
      → (handle_ingress http c st tunnel_id tail_path path_and_query request (waits_of log)).2
        ≡ streamed
            (get_or_else (http.from_u16 response.status) 502)
            (apply_forwarded_headers http http.empty
              (flatten_response_headers http response.headers))
            (nonempty response.body)
  tunnel_is_transparent c st tunnel_id tail_path path_and_query request log agent s ok at_session
        accepts ctx t body response error_text method local_url same present agent_takes starts ends
        readable version frame_version l takes composed known answered answer_starts answer_ends
        waiting is_open whole heard soon =
      let asked : ProxyRequest = record {
        request_id = c.request_id;
        method = request.method;
        path_and_query = extract_target_path path_and_query tunnel_id tail_path;
        headers = flatten_headers http request.headers;
        body_rx = body;
      } in
      let reached =
        request_reaches_agent http c st tunnel_id tail_path path_and_query request (waits_of log)
          agent present agent_takes starts ends readable version l ctx accepts body t takes in
      let replied =
        ap (λ (r : Handled). replies_of http url client c.json accepts ctx error_text r.2) reached
        ∙ one_task http url client c.json accepts ctx asked error_text
        ∙ proxy_task-answered http url client c.json accepts ctx asked error_text method local_url
            response composed known answered whole in
      let to_session =
        ap (λ j. (relay_response http j accepts ctx c.request_id response).0) (sym same) in
      client_gets_local_answer http c st tunnel_id tail_path path_and_query request log agent
        present agent_takes starts ends readable s ok at_session accepts ctx response answer_starts
        answer_ends frame_version l waiting is_open
        (ap (λ j. (relay_response http j accepts ctx c.request_id response).1) same ∙ whole)
        (heard ∙ ap (λ out. (take_replies s ok at_session out).1) (replied ∙ to_session)) soon
