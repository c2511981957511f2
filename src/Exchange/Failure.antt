-- ===== src/Exchange/Failure.antt =====
-- A request that fails at the agent: the task of crates/agent/src/relay_client.rs, the session of
-- crates/relay-server/src/ws_session.rs and the answer of crates/relay-server/src/http_ingress.rs.
use tunely.Prelude.{
  ℕ, ◌+◌, ◌%◌, ◌^◌, ◌≡◌, refl, ap, sym, true, false, some, List, [], ◌∷◌, ◌++◌, map, arith, length,
}
use mathlib.Core.List.{map-append}
use tunely.Prelude.Bytes.{Text, codes}
use tunely.Prelude.Map.{lookup}
use tunely.External.{Http}
use tunely.Protocol.{is_supported_protocol_version}
use tunely.Protocol.Message.{ControlMessage, Json, Uuid}
use tunely.Agent.Events
use tunely.Agent.Events.{send_control, to_relay}
use tunely.Agent.Handshake.{IsFaithful}
use tunely.Agent.LocalProxy.{
  UrlLib, compose_local_url, apply_forward_headers, flatten_response_headers,
}
use tunely.Agent.RelayClient.{RuntimeCtx, ProxyRequest}
use tunely.Agent.Proxy.{
  BodyItem, chunk, failed, LocalResponse, Client, stream_response_body, relay_response,
  proxy_one_request, proxy_task,
}
use tunely.Agent.Proxy.Replies.{
  take_one, take_replies, take_replies-append, take_body, nonempty, events, IsOpen,
}
use tunely.Agent.Proxy.Delivery.{take_start}
use tunely.Relay.Events.{RelayEvent, Sender, Accepts, relay_event}
use tunely.Relay.State.{AppState, remove_inflight, notify_error, notify_last}
use tunely.Relay.WsSession.{Session, turn, handle_text_message, handle_control}

abbrev pub error_message : Uuid → Text → ControlMessage
error_message id text = ControlMessage.error (some id) (codes "local_proxy_error") text

abbrev pub error_event : Text → RelayEvent
error_event text = RelayEvent.error (codes "local_proxy_error") text

-- The items of a body before a failure.
unfoldable readable_part : List BodyItem → List BodyItem
readable_part [] = []
readable_part (failed ∷ items) = []
readable_part (chunk bytes ∷ items) = chunk bytes ∷ readable_part items

abbrev pub HasFailure : List BodyItem → Type 0
HasFailure [] = ⊥
HasFailure (failed ∷ items) = Unit {0}
HasFailure (chunk bytes ∷ items) = HasFailure items

nonempty-readable_part : (items : List BodyItem) → nonempty (readable_part items) ≡ nonempty items
unfolding readable_part nonempty
nonempty-readable_part [] = refl
nonempty-readable_part (failed ∷ items) = refl
nonempty-readable_part (chunk [] ∷ items) = nonempty-readable_part items
nonempty-readable_part (chunk (b ∷ bs) ∷ items) = ap (◌∷◌ (b ∷ bs)) (nonempty-readable_part items)

-- The relay takes every message of the agent.
abbrev pub TakesAll : Events.Accepts → Sender → Type 0
TakesAll accepts relay_tx = (p : Events.Packet) → accepts relay_tx p ≡ true

module _ (accepts : Events.Accepts) (relay_tx : Sender) (id : Uuid) (version : ℕ) where
  stream_response_body-cut :
      TakesAll accepts relay_tx
      → (items : List BodyItem) (seq : ℕ) → HasFailure items
      → let part = stream_response_body accepts relay_tx id version seq (readable_part items) in
        (stream_response_body accepts relay_tx id version seq items ≡ (part.0, false))
        × (part.1 ≡ true)
  unfolding readable_part stream_response_body
  stream_response_body-cut takes [] seq fails = absurd fails
  stream_response_body-cut takes (failed ∷ items) seq fails = (refl, refl)
  stream_response_body-cut takes (chunk [] ∷ items) seq fails =
      stream_response_body-cut takes items seq fails
  stream_response_body-cut takes (chunk (b ∷ bs) ∷ items) seq fails =
      let (cut, whole) = stream_response_body-cut takes items ((seq + 1) % 2 ^ 32) fails in
      rw (takes _) (rw cut (refl, whole))

module _ (s : Session) (ok : Accepts) (st : AppState) (id : Uuid) (tx : Sender) where
  take_error :
      (relay_tx : ℕ) (text error_text : Text)
      → lookup id st.inflight ≡ some tx
      → IsOpen ok tx
      → s.json.from_str text ≡ some (error_message id error_text)
      → take_one s ok st (relay_tx, to_relay (Events.Message.text text))
        ≡ (remove_inflight st id, events tx (error_event error_text ∷ []))
  unfolding take_one turn handle_text_message handle_control notify_error remove_inflight
  take_error relay_tx text error_text waiting takes reads =
      rw (reads, handle_text_message, handle_control, notify_error)
        (rw (waiting, notify_last) (rw (takes (error_event error_text))))

-- A control message that is written as JSON goes out.
pub control-taken :
    (json : Json) (accepts : Events.Accepts) (relay_tx : Sender) (msg : ControlMessage)
    → TakesAll accepts relay_tx
    → IsFaithful json msg
    → (text : Text) × (json.from_str text ≡ some msg)
      × (send_control json accepts relay_tx msg
          ≡ ((relay_tx, to_relay (Events.Message.text text)) ∷ [], true))
unfolding send_control
control-taken json accepts relay_tx msg takes faithful =
    let (text, writes, reads) = faithful in
    (text, reads, rw (writes, send_control) (rw (takes (to_relay (Events.Message.text text))) refl))

module _ (http : Http) (url : UrlLib) where
  -- The local server answers a request: its address, its method and the answer.
  pub record Answered (client : Client http url) (ctx : RuntimeCtx) (request : ProxyRequest)
      (response : LocalResponse http) : Type 0 where
    pub address : url.Url
    pub method : Text
    pub composes : compose_local_url url ctx.local_base request.path_and_query ≡ some address
    pub parses : client.method_from_bytes request.method ≡ some method
    pub exchanges :
        client.exchange method address (apply_forward_headers http request.headers) request.body_rx
        ≡ some response

  -- What the task sends of an answer that breaks off, and what the relay's session makes of it.
  pub task_cut :
      (client : Client http url) (s : Session) (ok : Accepts) (st : AppState) (tx : Sender)
      (accepts : Events.Accepts) (ctx : RuntimeCtx) (request : ProxyRequest)
      (response : LocalResponse http) (error_text : Text)
      → Answered client ctx request response
      → HasFailure response.body
      → IsFaithful s.json (
          ControlMessage.http_response_start request.request_id response.status
            (flatten_response_headers http response.headers))
      → IsFaithful s.json (error_message request.request_id error_text)
      → is_supported_protocol_version ctx.relay_frame_version ≡ true
      → length request.request_id ≡ 16
      → lookup request.request_id st.inflight ≡ some tx
      → IsOpen ok tx
      → TakesAll accepts ctx.relay_tx
      → take_replies s ok st (proxy_task http url client s.json accepts ctx request error_text) ≡ (
        remove_inflight st request.request_id,
        events tx (
            RelayEvent.start response.status (flatten_response_headers http response.headers)
            ∷ (map RelayEvent.body (nonempty response.body) ++ (error_event error_text ∷ []))),
      )
  unfolding proxy_task proxy_one_request relay_response take_replies
  task_cut client s ok st tx accepts ctx request response error_text answered fails starts errs
        supported l waiting takes relay_takes =
      let id = request.request_id in
      let (first, reads_first, at_first) =
        control-taken s.json accepts ctx.relay_tx _ relay_takes starts in
      let (last, reads_last, at_last) =
        control-taken s.json accepts ctx.relay_tx _ relay_takes errs in
      let (cut, whole) =
        stream_response_body-cut accepts ctx.relay_tx id ctx.relay_frame_version relay_takes
          response.body 0 fails in
      let start =
        take_start s ok st id tx ctx.relay_tx response.status _ first waiting takes reads_first in
      let body =
        take_body s ok st id tx waiting takes accepts ctx.relay_tx ctx.relay_frame_version supported
          l (readable_part response.body) 0 (omega arith) whole in
      let end = take_error s ok st id tx ctx.relay_tx last error_text waiting takes reads_last in
      rw (answered.composes, answered.parses, answered.exchanges, proxy_task, proxy_one_request)
        (rw (at_first, cut, at_last, relay_response, take_replies)
          (rw (start, take_replies-append s ok)
            (rw (body, end, nonempty-readable_part response.body)
              (ap
                (λ es. (
                  remove_inflight st id,
                  (
                    tx,
                    relay_event (
                        RelayEvent.start response.status
                          (flatten_response_headers http response.headers)),
                  )
                      ∷ es,
                ))
                (sym (map-append _ (map RelayEvent.body (nonempty response.body)) _))))))

  -- What the task sends of a request that fails before there is an answer, and what the relay's
  -- session makes of it.
  pub task_unanswered :
      (client : Client http url) (s : Session) (ok : Accepts) (st : AppState) (tx : Sender)
      (accepts : Events.Accepts) (ctx : RuntimeCtx) (request : ProxyRequest) (error_text : Text)
      → proxy_one_request http url client s.json accepts ctx request ≡ ([], false)
      → IsFaithful s.json (error_message request.request_id error_text)
      → lookup request.request_id st.inflight ≡ some tx
      → IsOpen ok tx
      → TakesAll accepts ctx.relay_tx
      → take_replies s ok st (proxy_task http url client s.json accepts ctx request error_text)
        ≡ (remove_inflight st request.request_id, events tx (error_event error_text ∷ []))
  unfolding proxy_task take_replies
  task_unanswered client s ok st tx accepts ctx request error_text unanswered errs waiting takes
        relay_takes =
      let (last, reads_last, at_last) =
        control-taken s.json accepts ctx.relay_tx _ relay_takes errs in
      rw (unanswered, at_last, proxy_task, take_replies)
        (rw
          (take_error s ok st request.request_id tx ctx.relay_tx last error_text waiting takes
            reads_last)
          refl)
