-- ===== src/Exchange/WholeExample.antt =====
-- A request through the whole tunnel at concrete values.
use tunely.Prelude.{◌≡◌, refl, sym, ap, ◌∙◌, true, none, some, [], ◌∷◌, ◌++◌, map, if◌then◌else◌}
use tunely.Prelude.Bytes.{Text, codes, text_eq, strip_prefix, lower}
use tunely.Prelude.Map.{lookup}
use tunely.External.{plain_http}
use tunely.Protocol.{is_supported_protocol_version}
use tunely.Protocol.Http.{is_hop_header}
use tunely.Agent.Events.{send_control}
use tunely.Agent.LocalProxy.{
  UrlLib, compose_local_url, ends_with_slash, trim_start_slashes, flatten_response_headers,
  response_entries,
}
use tunely.Agent.Proxy
use tunely.Agent.Proxy.{LocalResponse, Client, relay_response, stream_response_body, proxy_task}
use tunely.Agent.Proxy.Replies.{take_replies, events, nonempty}
use tunely.Relay.State.{get_agent}
use tunely.Relay.HttpIngress.{
  streamed, handle_ingress, extract_target_path, flatten_headers, flatten_entries,
  apply_forwarded_headers,
}
use tunely.Exchange.Request.{Handled, take_sent, request_reaches_agent}
use tunely.Exchange.Answer.{waits_of}
use tunely.Exchange.Whole.{replies_of, tunnel_is_transparent}
use tunely.Exchange.Examples.{
  to_string, from_str, json, agent, st, waiting, context, request, ctx, tables, session, answer,
  log, log_heard,
}
use native.Mathlib.Omega.{arith}

abbrev plain_url : UrlLib
plain_url = record {
  Url = Text;
  parse = λ t. some t;
  join = λ b t. some (b ++ t);
  scheme = λ u. codes "http";
  set_scheme = λ u s. some u;
}

-- The local server gives the answer to one address.
abbrev local_server : Client plain_http plain_url
local_server = record {
  method_from_bytes = λ t. some t;
  exchange = λ method address headers body.
      if text_eq address (codes "http://127.0.0.1:3000/api?x=1") then some answer else none;
}

heard :
    events 11 (map (λ e. e.1) log)
    ≡ (take_replies session
        (λ s p. true)
        waiting
        (replies_of plain_http plain_url local_server json
          (λ s p. true)
          ctx
          (codes "unused")
          (take_sent json ctx
            (λ s p. true)
            20
            tables
            (handle_ingress plain_http context st
              (codes "demo")
              (codes "api")
              (some (codes "/t/demo/api?x=1"))
              request
              (waits_of log)).1).2)).1
unfolding replies_of get_agent lookup text_eq to_string from_str extract_target_path flatten_headers
    strip_prefix flatten_entries is_hop_header lower is_supported_protocol_version
    flatten_response_headers response_entries relay_response send_control stream_response_body
    nonempty proxy_task Proxy.proxy_one_request compose_local_url ends_with_slash trim_start_slashes
heard =
    log_heard
    ∙ ap (λ out. (take_replies session (λ s p. true) waiting out).1)
        (sym (
          ap
            (λ (r : Handled).
              replies_of plain_http plain_url local_server json (λ s p. true) ctx (codes "unused")
                r.2)
            (request_reaches_agent plain_http context st (codes "demo") (codes "api")
              (some (codes "/t/demo/api?x=1")) request (waits_of log) agent refl (λ p. refl)
              (0 ∷ [], refl, refl) (1 ∷ [], refl, refl) (λ f. f) refl refl ctx (λ s p. true) 20
              tables (λ p. refl))))

tunnel_is_transparent_example :
    (handle_ingress plain_http context st
      (codes "demo")
      (codes "api")
      (some (codes "/t/demo/api?x=1"))
      request
      (waits_of log)).2
    ≡ streamed 200 ((codes "content-type", codes "text/html") ∷ []) (codes "hi" ∷ [])
unfolding get_agent lookup text_eq to_string from_str extract_target_path flatten_headers
    strip_prefix flatten_entries is_hop_header lower is_supported_protocol_version
    flatten_response_headers response_entries relay_response send_control stream_response_body
    nonempty apply_forwarded_headers compose_local_url ends_with_slash trim_start_slashes
tunnel_is_transparent_example =
    tunnel_is_transparent plain_http plain_url local_server context st (codes "demo") (codes "api")
      (some (codes "/t/demo/api?x=1")) request log agent session (λ s p. true) waiting (λ s p. true)
      ctx tables 20 answer (codes "unused") (codes "POST") (codes "http://127.0.0.1:3000/api?x=1")
      refl refl (λ p. refl) (0 ∷ [], refl, refl) (1 ∷ [], refl, refl) (λ f. f) refl refl refl
      (λ p. refl) refl refl refl (2 ∷ [], refl, refl) (3 ∷ [], refl, refl) refl (λ e. refl) refl
      heard (omega arith)
