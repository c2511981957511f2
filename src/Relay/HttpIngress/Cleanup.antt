-- ===== src/Relay/HttpIngress/Cleanup.antt =====
-- crates/relay-server/src/http_ingress.rs: what a request leaves in the table of requests.
use tunely.Prelude.{
  ◌≡◌, ◌-◌, ◌*◌, ◌==◌, ℕ, List, [], ◌∷◌, Option, none, Option-cases, Bool-cases, inl, inr, arith,
  if◌then◌else◌,
}
use tunely.Prelude.Bytes.{Text}
use tunely.Prelude.Map.{lookup, lookup-remove_self}
use tunely.External.{Http}
use tunely.Protocol.Message.{Uuid}
use tunely.Relay.Events.{RelayEvent}
use tunely.Relay.State.{AppState, AgentHandle, remove_inflight, add_inflight, get_agent}
use tunely.Relay.State.Steps.{run}
use tunely.Relay.HttpIngress.{
  Context, Request, Wait, event, closed, timed_out, await_tables, stream_tables, relay_request,
  handle_ingress,
}

-- After a response has started: its end, its error, or the closing of its channel is read.
abbrev pub StreamEnds : List Wait → Type 0
StreamEnds [] = ⊥
StreamEnds ((t, closed) ∷ ws) = Unit {0}
StreamEnds ((t, event RelayEvent.end) ∷ ws) = Unit {0}
StreamEnds ((t, event (RelayEvent.error code text)) ∷ ws) = Unit {0}
StreamEnds (w ∷ ws) = StreamEnds ws

-- If a start comes after nothing but body chunks, what comes after it ends the response.
abbrev pub AnswerEnds : List Wait → Type 0
AnswerEnds ((t, event (RelayEvent.start status headers)) ∷ ws) = StreamEnds ws
AnswerEnds ((t, event (RelayEvent.body bytes)) ∷ ws) = AnswerEnds ws
AnswerEnds ws = Unit {0}

-- The request is not in the table.
abbrev Gone : Uuid → AppState → Type 0
Gone id st = lookup id st.inflight ≡ none

remove_inflight-Gone : (st : AppState) (id : Uuid) → Gone id (remove_inflight st id)
unfolding remove_inflight
remove_inflight-Gone st id = lookup-remove_self id st.inflight

module _ (st : AppState) (id : Uuid) where
  stream_tables-Gone : (ws : List Wait) → StreamEnds ws → Gone id (stream_tables st id ws)
  unfolding stream_tables
  stream_tables-Gone [] ends = absurd ends
  stream_tables-Gone ((t, closed) ∷ ws) ends = remove_inflight-Gone st id
  stream_tables-Gone ((t, timed_out) ∷ ws) ends = stream_tables-Gone ws ends
  stream_tables-Gone ((t, event (RelayEvent.body bytes)) ∷ ws) ends = stream_tables-Gone ws ends
  stream_tables-Gone ((t, event (RelayEvent.start s h)) ∷ ws) ends = stream_tables-Gone ws ends
  stream_tables-Gone ((t, event RelayEvent.end) ∷ ws) ends = remove_inflight-Gone st id
  stream_tables-Gone ((t, event (RelayEvent.error c x)) ∷ ws) ends = remove_inflight-Gone st id

  -- A wait after the deadline removes the request, whatever it gives.
  timed-Gone :
      (deadline t : ℕ) (after : AppState)
      → Gone id after
      → Gone id (if deadline - t == 0 then remove_inflight st id else after)
  timed-Gone deadline t after gone = elim (Bool-cases (deadline - t == 0)) [
    | inl over ↦ rw over (remove_inflight-Gone st id)
    | inr not_over ↦ rw not_over gone
  ]

  await_tables-Gone :
      (deadline : ℕ) (ws : List Wait) → AnswerEnds ws → Gone id (await_tables st id deadline ws)
  unfolding await_tables
  await_tables-Gone deadline [] ends = remove_inflight-Gone st id
  await_tables-Gone deadline ((t, closed) ∷ ws) ends =
      timed-Gone deadline t _ (remove_inflight-Gone st id)
  await_tables-Gone deadline ((t, timed_out) ∷ ws) ends =
      timed-Gone deadline t _ (remove_inflight-Gone st id)
  await_tables-Gone deadline ((t, event (RelayEvent.start s h)) ∷ ws) ends =
      timed-Gone deadline t _ (stream_tables-Gone ws ends)
  await_tables-Gone deadline ((t, event (RelayEvent.body bytes)) ∷ ws) ends =
      timed-Gone deadline t _ (await_tables-Gone deadline ws ends)
  await_tables-Gone deadline ((t, event RelayEvent.end) ∷ ws) ends =
      timed-Gone deadline t _ (remove_inflight-Gone st id)
  await_tables-Gone deadline ((t, event (RelayEvent.error c x)) ∷ ws) ends =
      timed-Gone deadline t _ (remove_inflight-Gone st id)

module _ (http : Http) where
  relay_request-absent :
      (c : Context http) (st : AppState) (agent : AgentHandle) (request : Request http)
      (waits : List Wait)
      → AnswerEnds waits
      → Gone c.request_id (relay_request http c st agent request waits).0
  unfolding relay_request
  relay_request-absent c st agent request waits ends =
      let left = run (add_inflight (run st c.before) c.request_id c.tx) c.meanwhile in
      let at_once = remove_inflight-Gone left c.request_id in
      let at_end =
        await_tables-Gone left c.request_id (st.request_timeout_secs * 1_000_000_000) waits ends in
      ground (arith, at_once, at_end)

  -- On every way out of the handler of a request its identifier is not in the table of requests: if
  -- it does not register the request, when the body or the end of the request cannot be sent, at each
  -- way out of the wait for the answer, and at the end of the streamed body, whatever the other tasks
  -- do in the meantime. It is only required that the identifier was not there before, and that an
  -- answer which starts is read to its end, its error or the closing of its channel.
  pub handle_ingress-absent :
      (c : Context http) (st : AppState) (tunnel_id tail_path : Text) (path_and_query : Option Text)
      (request : Request http) (waits : List Wait)
      → AnswerEnds waits
      → lookup c.request_id st.inflight ≡ none
      → lookup c.request_id
          (handle_ingress http c st tunnel_id tail_path path_and_query request waits).0.inflight
        ≡ none
  unfolding handle_ingress get_agent
  handle_ingress-absent c st tunnel_id tail_path path_and_query request waits ends fresh =
      elim (Option-cases (lookup tunnel_id st.agents)) [
        | inl e ↦ rw (e, handle_ingress) fresh
        | inr (agent, e) ↦
            rw (e, handle_ingress)
              (ground (arith, fresh, relay_request-absent c st agent request waits ends))
      ]
