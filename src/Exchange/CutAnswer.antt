-- ===== src/Exchange/CutAnswer.antt =====
-- What a client gets for a request that fails at the agent, before or while the local server answers:
-- the task of crates/agent/src/relay_client.rs and the answer of
-- crates/relay-server/src/http_ingress.rs.
use tunely.Prelude.{
  ℕ, ◌≡◌, ◌-◌, ◌*◌, ◌==◌, refl, ap, ◌∙◌, false, Option, some, List, [], ◌∷◌, map, arith,
}
use tunely.Prelude.Bytes.{Text, codes}
use tunely.Prelude.Map.{lookup}
use tunely.External.{Http}
use tunely.Agent.Events
use tunely.Agent.Handshake.{IsFaithful}
use tunely.Agent.LocalProxy.{UrlLib}
use tunely.Agent.RelayClient.{RuntimeCtx, ProxyRequest}
use tunely.Agent.Proxy.{Client, proxy_one_request, proxy_task}
use tunely.Agent.Proxy.Replies.{take_replies, events, IsOpen}
use tunely.Relay.Events.{RelayEvent, Sent, Accepts}
use tunely.Relay.State.{AppState, AgentHandle, get_agent}
use tunely.Relay.WsSession.{Session}
use tunely.Relay.HttpIngress
use tunely.Relay.HttpIngress.{
  Wait, event, Context, Request, simple, respond, await_start, handle_ingress,
}
use tunely.Exchange.Sending
use tunely.Exchange.Sending.{start_message, end_message, handle_ingress-whole}
use tunely.Exchange.Answer.{Log, waits_of, InTime, events-injective}
use tunely.Exchange.Failure.{TakesAll, HasFailure, error_message, task_unanswered}

module _ (http : Http) where
  open http use {from_u16, empty}

  respond-error :
      (deadline : ℕ) (log : Log) (code text : Text)
      → InTime deadline log
      → map (λ e. e.1) log ≡ RelayEvent.error code text ∷ []
      → respond http (await_start deadline (waits_of log) [])
        ≡ simple 502 (codes "agent request error")
  unfolding await_start respond
  respond-error deadline [] code text soon h = absurd soon
  respond-error deadline ((t, e) ∷ log) code text soon h =
      let here : e ≡ RelayEvent.error code text = cc in
      let not_over : (deadline - t == 0) ≡ false = ground arith in rw here (rw not_over refl)

  module _ (url : UrlLib) (client : Client http url) where
    -- A request that fails at the agent before the local server answers gets 502, if the tunnel has an
    -- agent that takes the whole request, its session takes the error that the agent's task sends
    -- while the request waits on its open channel, the handler receives exactly the events that are
    -- on that channel, the first of them in time, and the control messages survive the JSON.
    pub unanswered_is_502 :
        (c : Context http) (st : AppState) (tunnel_id tail_path : Text)
        (path_and_query : Option Text) (request : Request http) (log : Log) (agent : AgentHandle)
        → get_agent st tunnel_id ≡ some agent
        → Sending.TakesAll c.accepts agent.sender
        → IsFaithful c.json (start_message http c tunnel_id tail_path path_and_query request)
        → IsFaithful c.json (end_message http c)
        → ¬ HttpIngress.Upload.HasFailure request.body
        → (s : Session) (ok : Accepts) (at_session : AppState) (accepts : Events.Accepts)
          (ctx : RuntimeCtx) (task : ProxyRequest) (error_text : Text)
        → proxy_one_request http url client s.json accepts ctx task ≡ ([], false)
        → IsFaithful s.json (error_message task.request_id error_text)
        → lookup task.request_id at_session.inflight ≡ some c.tx
        → IsOpen ok c.tx
        → TakesAll accepts ctx.relay_tx
        → events c.tx (map (λ e. e.1) log)
          ≡ (take_replies s ok at_session
              (proxy_task http url client s.json accepts ctx task error_text)).1
        → InTime (st.request_timeout_secs * 1_000_000_000) log
        → (handle_ingress http c st tunnel_id tail_path path_and_query request (waits_of log)).2
          ≡ simple 502 (codes "agent request error")
    unanswered_is_502 c st tunnel_id tail_path path_and_query request log agent present agent_takes
          starts ends readable s ok at_session accepts ctx task error_text unanswered errs waiting
          takes relay_takes heard soon =
        let (_, given) =
          handle_ingress-whole http c st tunnel_id tail_path path_and_query request (waits_of log)
            agent present agent_takes starts ends readable in
        let delivered =
          task_unanswered http url client s ok at_session c.tx accepts ctx task error_text
            unanswered errs waiting takes relay_takes in
        let log_events =
          events-injective c.tx (map (λ e. e.1) log) _
            (heard ∙ ap (λ (r : AppState × List Sent). r.1) delivered) in
        given
        ∙ respond-error (st.request_timeout_secs * 1_000_000_000) log (codes "local_proxy_error")
            error_text soon log_events
