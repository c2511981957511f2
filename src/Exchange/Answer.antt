-- ===== src/Exchange/Answer.antt =====
-- From the local server to the client: `proxy_one_request` of crates/agent/src/relay_client.rs sends an
-- answer, the session of crates/relay-server/src/ws_session.rs takes it, and `handle_ingress` of
-- crates/relay-server/src/http_ingress.rs answers the client.
use tunely.Prelude.{
  ℕ, ◌≡◌, ◌-◌, ◌*◌, ◌<◌, ◌==◌, refl, ap, sym, ◌∙◌, true, false, Option, some, List, [], ◌∷◌, ◌++◌,
  map, arith, length, get_or_else,
}
use tunely.Prelude.Bytes.{Text, Bytes}
use tunely.Prelude.Map.{lookup}
use tunely.External.{Http}
use tunely.Protocol.{is_supported_protocol_version}
use tunely.Protocol.Message.{ControlMessage, Headers}
use tunely.Agent.Events
use tunely.Agent.Handshake.{IsFaithful}
use tunely.Agent.LocalProxy.{flatten_response_headers}
use tunely.Agent.RelayClient.{RuntimeCtx}
use tunely.Agent.Proxy.{LocalResponse, relay_response}
use tunely.Agent.Proxy.Replies.{take_replies, nonempty, events, IsOpen}
use tunely.Agent.Proxy.Delivery.{response_delivered}
use tunely.Relay.Events.{RelayEvent, Sender, Sent, Accepts, relay_event}
use tunely.Relay.State.{AppState, AgentHandle, get_agent}
use tunely.Relay.WsSession.{Session}
use tunely.Relay.HttpIngress.{
  Wait, event, Context, Request, streamed, respond, await_start, stream_rest, body_stream,
  apply_forwarded_headers, handle_ingress,
}
use tunely.Relay.HttpIngress.Upload.{HasFailure}
use tunely.Exchange.Sending.{TakesAll, start_message, end_message, handle_ingress-whole}

-- Events of a request with the times at which its handler receives them.
abbrev pub Log : Type 0
Log = List (ℕ × RelayEvent)

abbrev pub waits_of : Log → List Wait
waits_of = map (λ e. (e.0, event e.1))

-- The first event comes before the deadline.
abbrev pub InTime : ℕ → Log → Type 0
InTime deadline [] = ⊥
InTime deadline ((t, e) ∷ log) = t < deadline

event_of : Sent → RelayEvent
event_of (s, relay_event e) = e
event_of (s, p) = RelayEvent.end

unsent : (tx : Sender) (es : List RelayEvent) → map event_of (events tx es) ≡ es
unfolding event_of
unsent tx [] = refl
unsent tx (e ∷ es) = ap (◌∷◌ e) (unsent tx es)

pub events-injective :
    (tx : Sender) (es fs : List RelayEvent) → events tx es ≡ events tx fs → es ≡ fs
events-injective tx es fs h = sym (unsent tx es) ∙ ap (map event_of) h ∙ unsent tx fs

-- Where the event comes, the body stream ends.
abbrev pub Stops : RelayEvent → Type 0
Stops last = (t : ℕ) (ws : List Wait) → stream_rest ((t, event last) ∷ ws) ≡ []

-- The rest of a body whose events are these chunks and one that ends it.
stream_rest-whole :
    (last : RelayEvent)
    → Stops last
    → (log : Log) (chunks : List Bytes)
    → map (λ e. e.1) log ≡ map RelayEvent.body chunks ++ (last ∷ [])
    → stream_rest (waits_of log) ≡ chunks
unfolding stream_rest
stream_rest-whole last stops [] [] h = refl
stream_rest-whole last stops [] (c ∷ cs) h = cc
stream_rest-whole last stops ((t, e) ∷ log) [] h =
    let here : e ≡ last = cc in rw here (stops t (waits_of log))
stream_rest-whole last stops ((t, e) ∷ log) (c ∷ cs) h =
    let here : e ≡ RelayEvent.body c = cc in
    let later : map (λ p. p.1) log ≡ map RelayEvent.body cs ++ (last ∷ []) = cc in
    rw here (ap (◌∷◌ c) (stream_rest-whole last stops log cs later))

module _ (http : Http) where
  open http use {from_u16, empty}

  -- The client's answer, from the events of a whole response.
  pub respond-whole :
      (last : RelayEvent)
      → Stops last
      → (deadline : ℕ) (log : Log) (status : ℕ) (headers : Headers) (chunks : List Bytes)
      → InTime deadline log
      → map (λ e. e.1) log
        ≡ RelayEvent.start status headers ∷ (map RelayEvent.body chunks ++ (last ∷ []))
      → respond http (await_start deadline (waits_of log) [])
        ≡ streamed
            (get_or_else (from_u16 status) 502)
            (apply_forwarded_headers http empty headers)
            chunks
  unfolding await_start body_stream respond
  respond-whole last stops deadline [] status headers chunks soon h = absurd soon
  respond-whole last stops deadline ((t, e) ∷ log) status headers chunks soon h =
      let here : e ≡ RelayEvent.start status headers = cc in
      let later : map (λ p. p.1) log ≡ map RelayEvent.body chunks ++ (last ∷ []) = cc in
      let not_over : (deadline - t == 0) ≡ false = ground arith in
      rw here (rw not_over (rw (stream_rest-whole last stops log chunks later) refl))

  -- The answer of the local server is the answer that the client gets: if the tunnel has an agent
  -- that takes the whole request, the agent sends the whole of the local server's answer, it reaches
  -- the session of that agent while the request waits on its open channel, the handler receives
  -- exactly the events that are on that channel, the first of them in time, the control messages
  -- survive the JSON, the version is supported and the identifier has 16 bytes. The client gets the
  -- status (502 for one that is no status code), the headers that pass both ends, and the non-empty
  -- chunks of the body in order.
  pub client_gets_local_answer :
      (c : Context http) (st : AppState) (tunnel_id tail_path : Text) (path_and_query : Option Text)
      (request : Request http) (log : Log) (agent : AgentHandle)
      → get_agent st tunnel_id ≡ some agent
      → TakesAll c.accepts agent.sender
      → IsFaithful c.json (start_message http c tunnel_id tail_path path_and_query request)
      → IsFaithful c.json (end_message http c)
      → ¬ HasFailure request.body
      → (s : Session) (ok : Accepts) (at_session : AppState) (accepts : Events.Accepts)
        (ctx : RuntimeCtx) (response : LocalResponse http)
      → IsFaithful s.json (
          ControlMessage.http_response_start c.request_id response.status
            (flatten_response_headers http response.headers))
      → IsFaithful s.json (ControlMessage.http_response_end c.request_id)
      → is_supported_protocol_version ctx.relay_frame_version ≡ true
      → length c.request_id ≡ 16
      → lookup c.request_id at_session.inflight ≡ some c.tx
      → IsOpen ok c.tx
      → (relay_response http s.json accepts ctx c.request_id response).1 ≡ true
      → events c.tx (map (λ e. e.1) log)
        ≡ (take_replies s ok at_session
            (relay_response http s.json accepts ctx c.request_id response).0).1
      → InTime (st.request_timeout_secs * 1_000_000_000) log
      → (handle_ingress http c st tunnel_id tail_path path_and_query request (waits_of log)).2
        ≡ streamed
            (get_or_else (from_u16 response.status) 502)
            (apply_forwarded_headers http empty (flatten_response_headers http response.headers))
            (nonempty response.body)
  client_gets_local_answer c st tunnel_id tail_path path_and_query request log agent present
        agent_takes starts ends readable s ok at_session accepts ctx response answer_starts
        answer_ends supported l waiting takes whole heard soon =
      let (_, answered) =
        handle_ingress-whole http c st tunnel_id tail_path path_and_query request (waits_of log)
          agent present agent_takes starts ends readable in
      let delivered =
        response_delivered http s ok at_session c.tx accepts ctx c.request_id response answer_starts
          answer_ends supported l waiting takes whole in
      let received = heard ∙ ap (λ (r : AppState × List Sent). r.1) delivered in
      let log_events = events-injective c.tx (map (λ e. e.1) log) _ received in
      answered
      ∙ respond-whole RelayEvent.end (λ t ws. unfold stream_rest in refl)
          (st.request_timeout_secs * 1_000_000_000) log response.status
          (flatten_response_headers http response.headers) (nonempty response.body) soon log_events
