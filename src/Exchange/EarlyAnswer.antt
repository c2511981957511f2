-- ===== src/Exchange/EarlyAnswer.antt =====
-- crates/relay-server/src/http_ingress.rs: an answer that the relay's session handles after the start of
-- the request was sent to the agent, but before the request is put into the table.
use tunely.Prelude.{◌≡◌, refl, ◌∙◌, List, [], ◌∷◌, Option, none, some, All, map}
use tunely.Prelude.Bytes.{Text, codes}
use tunely.Prelude.Map.{lookup}
use tunely.External.{Http}
use tunely.Protocol.Message.{Uuid}
use tunely.Agent.Handshake.{IsFaithful}
use tunely.Agent.Proxy.Replies.{events}
use tunely.Relay.Events.{Accepts, Sender}
use tunely.Relay.State.{AppState, AgentHandle, get_agent}
use tunely.Relay.State.Steps.{Op, run, run_sent}
use tunely.Relay.State.Requests.{Notifies, notify_absent}
use tunely.Relay.HttpIngress
use tunely.Relay.HttpIngress.{
  Context, Request, simple, await_start, respond, registered, handle_ingress,
}
use tunely.Relay.HttpIngress.Cleanup.{handle_ingress-absent}
use tunely.Exchange.Sending.{TakesAll, start_message, end_message, handle_ingress-whole}
use tunely.Exchange.Answer.{Log, waits_of}

-- Reports about a request that is not in the table send nothing and change nothing.
run_unregistered :
    (r : Uuid) (ops : List (Accepts × Op)) (st : AppState)
    → lookup r st.inflight ≡ none
    → All (λ e. Notifies r e.1) ops
    → (run st ops ≡ st) × (run_sent st ops ≡ [])
unfolding run run_sent
run_unregistered r [] st h about = (refl, refl)
run_unregistered r ((ok, op) ∷ ops) st h about =
    rw (notify_absent ok st r op about.0 h) (run_unregistered r ops st h about.1)

no_events : (tx : Sender) (log : Log) → events tx (map (λ e. e.1) log) ≡ [] → log ≡ []
no_events tx [] h = refl
no_events tx (e ∷ log) h = absurd (cc h)

-- An answer that comes too early is lost, and the client gets a timeout. If the agent's session handles
-- the whole answer between the start of the request and its registration, and the other tasks do
-- nothing else until the relay answers, then whatever that answer is, and although the agent takes
-- the whole request, the relay answers 504, and the request is not in the table any more. The handler
-- receives exactly the events that were sent in that time on its channel, the control messages of the
-- request survive the JSON, its body is read without a failure, and its identifier was not in the
-- table before.
pub early_answer_times_out :
    (http : Http) (c : Context http) (st : AppState) (tunnel_id tail_path : Text)
    (path_and_query : Option Text) (request : Request http) (log : Log) (agent : AgentHandle)
    → get_agent st tunnel_id ≡ some agent
    → TakesAll c.accepts agent.sender
    → IsFaithful c.json (start_message http c tunnel_id tail_path path_and_query request)
    → IsFaithful c.json (end_message http c)
    → ¬ HttpIngress.Upload.HasFailure request.body
    → lookup c.request_id st.inflight ≡ none
    → All (λ e. Notifies c.request_id e.1) c.before
    → c.meanwhile ≡ []
    → events c.tx (map (λ e. e.1) log) ≡ (registered http c st).1
    → let r = handle_ingress http c st tunnel_id tail_path path_and_query request (waits_of log) in
      (r.2 ≡ simple 504 (codes "agent response timeout"))
      × (lookup c.request_id r.0.inflight ≡ none)
unfolding registered run_sent
early_answer_times_out http c st tunnel_id tail_path path_and_query request log agent present takes
      starts ends readable fresh about nothing_else heard =
    let (_, silent) = run_unregistered c.request_id c.before st fresh about in
    let nothing : (registered http c st).1 ≡ [] = rw (silent, nothing_else) refl in
    let unheard : log ≡ [] = no_events c.tx log (heard ∙ nothing) in
    let (_, given) =
      handle_ingress-whole http c st tunnel_id tail_path path_and_query request [] agent present
        takes starts ends readable in
    rw unheard (
      given ∙ (unfold await_start respond in refl),
      handle_ingress-absent http c st tunnel_id tail_path path_and_query request [] tt fresh,
    )
