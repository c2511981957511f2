-- ===== src/Exchange/FailureExamples.antt =====
-- HTTP exchanges that break off, at concrete values.
use tunely.Agent.Handshake.{IsFaithful}
use tunely.Prelude.{◌≡◌, refl, sym, ap, true, false, none, some, [], ◌∷◌, ◌++◌, arith}
use tunely.Prelude.Bytes.{Text, codes, uuid, text_eq, strip_prefix, lower}
use tunely.Prelude.Map.{lookup}
use tunely.External.{plain_http}
use tunely.Protocol.{is_supported_protocol_version}
use tunely.Protocol.Http.{is_hop_header}
use tunely.Agent.LocalProxy.{UrlLib, compose_local_url}
use tunely.Agent.Proxy
use tunely.Agent.Proxy.{LocalResponse, Client, proxy_one_request, proxy_task}
use tunely.Agent.Proxy.Replies.{take_replies, events}
use tunely.Agent.RelayClient
use tunely.Agent.RelayClient.{ProxyRequest, inflight_get, inflight_insert}
use tunely.Agent.RelayClient.Upload.{body_chunks}
use tunely.Relay.Events.{RelayEvent}
use tunely.Relay.State.{get_agent}
use tunely.Relay.HttpIngress.{
  BodyItem, Request, simple, handle_ingress, extract_target_path, flatten_headers, flatten_entries,
}
use tunely.Relay.HttpIngress.Upload.{numbered}
use tunely.Exchange.Request.{take_sent}
use tunely.Exchange.Answer.{Log, waits_of}
use tunely.Exchange.CutUpload.{cut_upload_stays_open}
use tunely.Exchange.Failure.{task_unanswered, error_message}
use tunely.Exchange.CutAnswer.{unanswered_is_502}
use tunely.Exchange.Examples.{
  to_string, from_str, json, agent, st, waiting, context, request, ctx, tables, session,
}

-- The client goes away after the first chunk.
abbrev cut_request : Request plain_http
cut_request = record request {
  body = BodyItem.chunk (codes "ab") ∷ BodyItem.failed ∷ BodyItem.chunk (codes "c") ∷ [];
}

cut_upload_stays_open_example :
    let r =
      handle_ingress plain_http context st
        (codes "demo")
        (codes "api")
        (some (codes "/t/demo/api?x=1"))
        cut_request
        [] in
    let h = take_sent json ctx (λ s p. true) 20 tables r.1 in
    (r.2 ≡ simple 502 (codes "failed to stream request body"))
    × (inflight_get h.0.inflight (uuid 3) ≡ some 20)
    × (h.1 ≡ body_chunks 20 ((0, codes "ab") ∷ []))
    × (h.2
        ≡ RelayClient.proxy_one_request (record {
          request_id = uuid 3;
          method = codes "POST";
          path_and_query = codes "/api?x=1";
          headers = (codes "accept", codes "text/html") ∷ [];
          body_rx = 20;
        })
          ∷ [])
unfolding get_agent lookup text_eq to_string from_str extract_target_path flatten_headers
    strip_prefix flatten_entries is_hop_header lower is_supported_protocol_version numbered
cut_upload_stays_open_example =
    cut_upload_stays_open plain_http context st (codes "demo") (codes "api")
      (some (codes "/t/demo/api?x=1")) cut_request [] agent refl (λ p. refl) (0 ∷ [], refl, refl) tt
      refl refl ctx (λ s p. true) 20 tables (λ p. refl)

-- Addresses are texts, and a path is put behind its base.
abbrev plain_url : UrlLib
plain_url = record {
  Url = Text;
  parse = λ t. some t;
  join = λ b t. some (b ++ t);
  scheme = λ u. codes "http";
  set_scheme = λ u s. some u;
}

-- The local server's answer breaks off after "hi".
abbrev cut_answer : LocalResponse plain_http
cut_answer = record {
  status = 200;
  headers = (codes "content-type", codes "text/html") ∷ [];
  body = Proxy.BodyItem.chunk (codes "hi") ∷ Proxy.BodyItem.failed ∷ [];
}

abbrev client : Client plain_http plain_url
client = record {
  method_from_bytes = λ t. some t;
  exchange = λ method address headers body. some cut_answer;
}

-- No local server.
abbrev no_server : Client plain_http plain_url
no_server = record {
  method_from_bytes = λ t. some t;
  exchange = λ method address headers body. none;
}

abbrev task : ProxyRequest
task = record {
  request_id = uuid 3;
  method = codes "POST";
  path_and_query = codes "/api?x=1";
  headers = (codes "accept", codes "text/html") ∷ [];
  body_rx = 20;
}

abbrev error_event : RelayEvent
error_event = RelayEvent.error (codes "local_proxy_error") (codes "connection reset")

abbrev cut_log : Log
cut_log =
    (1000, RelayEvent.start 200 ((codes "content-type", codes "text/html") ∷ []))
    ∷ (2000, RelayEvent.body (codes "hi"))
    ∷ (3000, error_event)
    ∷ []

error-IsFaithful : IsFaithful json (error_message (uuid 3) (codes "connection reset"))
unfolding to_string from_str
error-IsFaithful = (4 ∷ [], refl, refl)

unanswered :
    proxy_one_request plain_http plain_url no_server json (λ s p. true) ctx task ≡ ([], false)
unfolding proxy_one_request compose_local_url
unanswered = refl

error_heard :
    events 11 (error_event ∷ [])
    ≡ (take_replies session
        (λ s p. true)
        waiting
        (proxy_task plain_http plain_url no_server json
          (λ s p. true)
          ctx
          task
          (codes "connection reset"))).1
unfolding lookup text_eq
error_heard = sym (
    ap (λ r. r.1)
      (task_unanswered plain_http plain_url no_server session (λ s p. true) waiting 11 (λ s p. true)
        ctx task (codes "connection reset") unanswered error-IsFaithful refl (λ e. refl)
        (λ p. refl)))

unanswered_is_502_example :
    (handle_ingress plain_http context st
      (codes "demo")
      (codes "api")
      (some (codes "/t/demo/api?x=1"))
      request
      (waits_of ((1000, error_event) ∷ []))).2
    ≡ simple 502 (codes "agent request error")
unfolding get_agent lookup text_eq to_string from_str extract_target_path flatten_headers
    strip_prefix flatten_entries is_hop_header lower
unanswered_is_502_example =
    unanswered_is_502 plain_http plain_url no_server context st (codes "demo") (codes "api")
      (some (codes "/t/demo/api?x=1")) request ((1000, error_event) ∷ []) agent refl (λ p. refl)
      (0 ∷ [], refl, refl) (1 ∷ [], refl, refl) (λ f. f) session (λ s p. true) waiting (λ s p. true)
      ctx task (codes "connection reset") unanswered error-IsFaithful refl (λ e. refl) (λ p. refl)
      error_heard (omega arith)
