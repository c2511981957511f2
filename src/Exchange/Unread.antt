-- ===== src/Exchange/Unread.antt =====
-- crates/relay-server/src/http_ingress.rs: a client that stops reading while its answer is streamed. The
-- body stream is then dropped where it waits, before the removal at its end.
use tunely.Prelude.{ℕ, ◌≡◌, refl, ◌-◌, ◌*◌, ◌==◌, false, List, [], ◌∷◌, Option, some, All, arith}
use tunely.Prelude.Bytes.{Text}
use tunely.Prelude.Map.{lookup, lookup-insert_self}
use tunely.External.{Http}
use tunely.Protocol.Message.{Uuid, Headers}
use tunely.Relay.Events.{RelayEvent, Accepts}
use tunely.Relay.State.{AppState, AgentHandle, add_inflight, get_agent}
use tunely.Relay.State.Steps.{Op, run}
use tunely.Relay.State.Waiting.{Keeps, request_stays}
use tunely.Relay.HttpIngress
use tunely.Relay.HttpIngress.{
  Context, Request, Wait, event, closed, timed_out, await_tables, stream_tables, relay_request,
  handle_ingress,
}
use tunely.Relay.HttpIngress.Cleanup.{StreamEnds, AnswerEnds}
use tunely.Relay.HttpIngress.Answer.{StartsWith}
use tunely.Agent.Handshake.{IsFaithful}
use tunely.Exchange.Sending.{
  TakesAll, start_message, end_message, send_control-taken, stream_request_body-whole,
}

stream_tables-open :
    (st : AppState) (id : Uuid) (ws : List Wait) → ¬ StreamEnds ws → stream_tables st id ws ≡ st
unfolding stream_tables
stream_tables-open st id [] unread = refl
stream_tables-open st id ((t, closed) ∷ ws) unread = absurd (unread tt)
stream_tables-open st id ((t, timed_out) ∷ ws) unread = stream_tables-open st id ws unread
stream_tables-open st id ((t, event (RelayEvent.body b)) ∷ ws) unread =
    stream_tables-open st id ws unread
stream_tables-open st id ((t, event (RelayEvent.start s h)) ∷ ws) unread =
    stream_tables-open st id ws unread
stream_tables-open st id ((t, event RelayEvent.end) ∷ ws) unread = absurd (unread tt)
stream_tables-open st id ((t, event (RelayEvent.error c x)) ∷ ws) unread = absurd (unread tt)

await_tables-open :
    (st : AppState) (id : Uuid) (deadline : ℕ) (ws : List Wait) (status : ℕ) (headers : Headers)
    → StartsWith deadline ws status headers
    → ¬ AnswerEnds ws
    → await_tables st id deadline ws ≡ st
unfolding await_tables
await_tables-open st id deadline [] status headers starts unread = absurd starts
await_tables-open st id deadline ((t, event (RelayEvent.start s h)) ∷ ws) status headers starts
      unread =
    let soon : (deadline - t == 0) ≡ false = ground (arith, starts.0) in
    rw soon (stream_tables-open st id ws unread)
await_tables-open st id deadline ((t, event (RelayEvent.body b)) ∷ ws) status headers starts
      unread =
    let soon : (deadline - t == 0) ≡ false = ground (arith, starts.0) in
    rw soon (await_tables-open st id deadline ws status headers starts.1 unread)
await_tables-open st id deadline ((t, r) ∷ ws) status headers starts unread = absurd (unread tt)

-- A client that stops reading leaves its request behind. If the request was read without a failure and
-- went to an agent whose channel is open, in control messages that survive the JSON, and the answer
-- starts in time but its end, its error and the closing of its channel are not read any more, then the
-- request is still in the table, with its channel, and it stays there whatever the other tasks do in
-- the meantime and later, even when the agent disconnects, as long as none of them ends, removes or
-- registers the same request and the channel takes what the agent sends for it.
pub unread_answer_stays :
    (http : Http) (c : Context http) (st : AppState) (tunnel_id tail_path : Text)
    (path_and_query : Option Text) (request : Request http) (waits : List Wait)
    (agent : AgentHandle)
    → get_agent st tunnel_id ≡ some agent
    → TakesAll c.accepts agent.sender
    → IsFaithful c.json (start_message http c tunnel_id tail_path path_and_query request)
    → IsFaithful c.json (end_message http c)
    → ¬ HttpIngress.Upload.HasFailure request.body
    → (status : ℕ) (headers : Headers)
    → StartsWith (st.request_timeout_secs * 1_000_000_000) waits status headers
    → ¬ AnswerEnds waits
    → All (λ e. Keeps c.request_id c.tx e.0 e.1) c.meanwhile
    → (later : List (Accepts × Op)) → All (λ e. Keeps c.request_id c.tx e.0 e.1) later
    → lookup c.request_id
        (run
          (handle_ingress http c st tunnel_id tail_path path_and_query request waits).0
          later).inflight
      ≡ some c.tx
unfolding handle_ingress relay_request
unread_answer_stays http c st tunnel_id tail_path path_and_query request waits agent present takes
      starts ends readable status headers in_time unread meanwhile later quiet =
    let (_, _, at_first) = send_control-taken c.json c.accepts agent.sender _ takes starts in
    let (_, _, at_last) = send_control-taken c.json c.accepts agent.sender _ takes ends in
    let whole =
      stream_request_body-whole c.accepts agent.sender c.request_id agent.protocol_version takes
        request.body 0 readable in
    let start = add_inflight (run st c.before) c.request_id c.tx in
    let registered : lookup c.request_id start.inflight ≡ some c.tx =
      unfold add_inflight in lookup-insert_self c.request_id c.tx (run st c.before).inflight in
    let waiting = request_stays c.request_id c.tx c.meanwhile start registered meanwhile in
    let left =
      await_tables-open (run start c.meanwhile) c.request_id
        (st.request_timeout_secs * 1_000_000_000) waits status headers in_time unread in
    rw (present, handle_ingress)
      (rw (at_first, at_last, whole, relay_request)
        (rw left (request_stays c.request_id c.tx later _ waiting quiet)))
