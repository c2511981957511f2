-- ===== src/Exchange/LeftExamples.antt =====
-- Requests whose answer is not read to its end or comes too early, at concrete values.
use tunely.Prelude.{◌≡◌, refl, true, none, some, List, [], ◌∷◌, arith}
use tunely.Prelude.Bytes.{codes, uuid, text_eq, strip_prefix, lower}
use tunely.Prelude.Map.{lookup}
use tunely.External.{plain_http}
use tunely.Protocol.Http.{is_hop_header}
use tunely.Relay.Events.{RelayEvent}
use tunely.Relay.State.{get_agent, notify_start, notify_end, notify_open, notify_last}
use tunely.Relay.State.Steps.{Op, step, run, run_sent}
use tunely.Relay.HttpIngress.{
  Wait, Received, Context, simple, handle_ingress, extract_target_path, flatten_headers,
  flatten_entries, registered,
}
use tunely.Exchange.Unread.{unread_answer_stays}
use tunely.Exchange.EarlyAnswer.{early_answer_times_out}
use tunely.Exchange.Examples.{to_string, from_str, agent, st, context, request}

-- The client stops reading after the first chunk of its answer, and then the agent disconnects.
abbrev answered_context : Context plain_http
answered_context = record context {
  meanwhile = (λ s p. true, Op.notify_start (uuid 3) 200 []) ∷ [];
}

abbrev read_events : List Wait
read_events =
    (1, Received.event (RelayEvent.start 200 []))
    ∷ (2, Received.event (RelayEvent.body (codes "a")))
    ∷ []

unread_answer_stays_example :
    lookup
      (uuid 3)
      (run
        (handle_ingress plain_http answered_context st
          (codes "demo")
          (codes "api")
          (some (codes "/t/demo/api?x=1"))
          request
          read_events).0
        ((λ s p. true, Op.remove_agent_if (codes "demo") (uuid 1)) ∷ [])).inflight
    ≡ some 11
unfolding get_agent lookup text_eq to_string from_str extract_target_path flatten_headers
    strip_prefix flatten_entries is_hop_header lower
unread_answer_stays_example =
    unread_answer_stays plain_http answered_context st (codes "demo") (codes "api")
      (some (codes "/t/demo/api?x=1")) request read_events agent refl (λ p. refl)
      (0 ∷ [], refl, refl) (1 ∷ [], refl, refl) (λ f. f) 200 [] (omega arith, refl, refl) (λ e. e)
      ((λ e. refl), tt) ((λ s p. true, Op.remove_agent_if (codes "demo") (uuid 1)) ∷ []) (tt, tt)

-- The agent answers before the request is registered.
abbrev early_context : Context plain_http
early_context = record context {
  before =
      (λ s p. true, Op.notify_start (uuid 3) 200 []) ∷ (λ s p. true, Op.notify_end (uuid 3)) ∷ [];
}

early_answer_times_out_example :
    let r =
      handle_ingress plain_http early_context st
        (codes "demo")
        (codes "api")
        (some (codes "/t/demo/api?x=1"))
        request
        [] in
    (r.2 ≡ simple 504 (codes "agent response timeout")) × (lookup (uuid 3) r.0.inflight ≡ none)
unfolding get_agent lookup text_eq to_string from_str extract_target_path flatten_headers
    strip_prefix flatten_entries is_hop_header lower registered run_sent step notify_start
    notify_end notify_open notify_last
early_answer_times_out_example =
    early_answer_times_out plain_http early_context st (codes "demo") (codes "api")
      (some (codes "/t/demo/api?x=1")) request [] agent refl (λ p. refl) (0 ∷ [], refl, refl)
      (1 ∷ [], refl, refl) (λ f. f) refl (refl, (refl, tt)) refl refl
