-- ===== src/Agent/Proxy/Delivery.antt =====
-- crates/agent/src/relay_client.rs, crates/relay-server/src/ws_session.rs and src/state.rs: an answer
-- of the local server on its way to the request that waits for it in the relay.
use tunely.Prelude.{ℕ, ◌≡◌, ap, true, [], ◌∷◌, ◌++◌, some, map, arith, length}
use mathlib.Core.List.{map-append}
use mathlib.Core.Path.{sym}
use tunely.Prelude.Bytes.{Text}
use tunely.Prelude.Map.{lookup}
use tunely.External.{Http}
use tunely.Protocol.{is_supported_protocol_version}
use tunely.Protocol.Message.{ControlMessage, Json, Uuid, Headers}
use tunely.Agent.Events.{Message, Sender, Accepts, send_control, to_relay}
use tunely.Agent.Handshake.{IsFaithful}
use tunely.Agent.LocalProxy.{flatten_response_headers}
use tunely.Agent.RelayClient.{RuntimeCtx}
use tunely.Agent.Proxy.{LocalResponse, stream_response_body, relay_response}
use tunely.Relay.Events
use tunely.Relay.State.{
  AppState, remove_inflight, notify_open, notify_start, notify_end, notify_last,
}
use tunely.Relay.WsSession.{Session, turn, handle_text_message, handle_control}
use tunely.Agent.Proxy.Replies.{
  take_one, take_replies, take_replies-append, take_body, nonempty, events, IsOpen,
}

-- A control message that was sent is read back.
pub sent_control :
    (json : Json) (accepts : Accepts) (relay_tx : Sender) (msg : ControlMessage)
    → IsFaithful json msg
    → (send_control json accepts relay_tx msg).1 ≡ true
    → (text : Text) × ((send_control json accepts relay_tx msg).0
        ≡ (relay_tx, to_relay (Message.text text)) ∷ [])
      × (json.from_str text ≡ some msg)
unfolding send_control
sent_control json accepts relay_tx msg faithful sent =
    let (text, writes, reads) = faithful in (text, ground arith, reads)

module _ (s : Session) (ok : Events.Accepts) (st : AppState) (id : Uuid) (tx : Events.Sender) where
  pub take_start :
      (relay_tx status : ℕ) (headers : Headers) (text : Text)
      → lookup id st.inflight ≡ some tx
      → IsOpen ok tx
      → s.json.from_str text ≡ some (ControlMessage.http_response_start id status headers)
      → take_one s ok st (relay_tx, to_relay (Message.text text))
        ≡ (st, events tx (Events.RelayEvent.start status headers ∷ []))
  unfolding take_one turn handle_text_message handle_control notify_start
  take_start relay_tx status headers text waiting takes reads =
      rw (reads, handle_text_message, handle_control, notify_start)
        (rw (waiting, notify_open) (rw (takes, notify_open)))

  take_end :
      (relay_tx : ℕ) (text : Text)
      → lookup id st.inflight ≡ some tx
      → IsOpen ok tx
      → s.json.from_str text ≡ some (ControlMessage.http_response_end id)
      → take_one s ok st (relay_tx, to_relay (Message.text text))
        ≡ (remove_inflight st id, events tx (Events.RelayEvent.end ∷ []))
  unfolding take_one turn handle_text_message handle_control notify_end remove_inflight
  take_end relay_tx text waiting takes reads =
      rw (reads, handle_text_message, handle_control, notify_end)
        (rw (waiting, notify_last) (rw (takes Events.RelayEvent.end)))

module _ (http : Http) where
  -- The three parts of an answer that went out in full.
  relay_response_parts :
      (json : Json) (accepts : Accepts) (ctx : RuntimeCtx) (id : Uuid)
      (response : LocalResponse http)
      → (relay_response http json accepts ctx id response).1 ≡ true
      → let start = send_control json accepts ctx.relay_tx (
          ControlMessage.http_response_start id response.status
            (flatten_response_headers http response.headers)) in
        let frames =
          stream_response_body accepts ctx.relay_tx id ctx.relay_frame_version 0 response.body in
        let last = send_control json accepts ctx.relay_tx (ControlMessage.http_response_end id) in
        (start.1 ≡ true)
        × (frames.1 ≡ true)
        × (last.1 ≡ true)
        × ((relay_response http json accepts ctx id response).0 ≡ start.0 ++ frames.0 ++ last.0)
  unfolding relay_response
  relay_response_parts json accepts ctx id response whole = ground arith

  -- A whole answer of the local server reaches the client's request, if its start and its end survive
  -- the JSON, the agent uses a supported version, the identifier has 16 bytes, and the request waits
  -- on an open channel: the agent's messages make the relay send, on that channel and nowhere else,
  -- the start with the status and the headers that pass, every non-empty chunk in order, and the
  -- end; then the request is no longer in the relay's table, and nothing else in its tables has
  -- changed.
  pub response_delivered :
      (s : Session) (ok : Events.Accepts) (st : AppState) (tx : Events.Sender) (accepts : Accepts)
      (ctx : RuntimeCtx) (id : Uuid) (response : LocalResponse http)
      → IsFaithful s.json (
          ControlMessage.http_response_start id response.status
            (flatten_response_headers http response.headers))
      → IsFaithful s.json (ControlMessage.http_response_end id)
      → is_supported_protocol_version ctx.relay_frame_version ≡ true
      → length id ≡ 16
      → lookup id st.inflight ≡ some tx
      → IsOpen ok tx
      → (relay_response http s.json accepts ctx id response).1 ≡ true
      → take_replies s ok st (relay_response http s.json accepts ctx id response).0 ≡ (
        remove_inflight st id,
        events tx (
            Events.RelayEvent.start response.status (flatten_response_headers http response.headers)
            ∷ (map Events.RelayEvent.body (nonempty response.body)
                ++ (Events.RelayEvent.end ∷ []))),
      )
  unfolding take_replies
  response_delivered s ok st tx accepts ctx id response starts ends supported l waiting takes
        whole =
      let headers = flatten_response_headers http response.headers in
      let (p, q, r, all) = relay_response_parts s.json accepts ctx id response whole in
      let (first, at_first, reads_first) = sent_control s.json accepts ctx.relay_tx _ starts p in
      let (last, at_last, reads_last) = sent_control s.json accepts ctx.relay_tx _ ends r in
      let body =
        take_body s ok st id tx waiting takes accepts ctx.relay_tx ctx.relay_frame_version supported
          l response.body 0 (omega arith) q in
      let start =
        take_start s ok st id tx ctx.relay_tx response.status headers first waiting takes
          reads_first in
      let end = take_end s ok st id tx ctx.relay_tx last waiting takes reads_last in
      rw (all, at_first, at_last, take_replies)
        (rw (start, take_replies-append s ok)
          (rw (body, take_replies)
            (rw end (
              ap
                (λ es. (
                  remove_inflight st id,
                  (tx, Events.relay_event (Events.RelayEvent.start response.status headers)) ∷ es,
                ))
                (sym (map-append _ (map Events.RelayEvent.body (nonempty response.body)) _))))))
