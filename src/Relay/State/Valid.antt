-- ===== src/Relay/State/Valid.antt =====
-- crates/relay-server/src/state.rs: the invariant of the tables.
use tunely.Prelude.{ℕ, ◌≡◌, refl, List, [], ◌∷◌, arith, Option, inl, inr, Bool-cases}
use tunely.Prelude.Bytes.{Text}
use tunely.Prelude.Map.{IsMap, insert-IsMap, remove-IsMap}
use tunely.Protocol.Message.{Uuid}
use tunely.Relay.Events.{Sent, Accepts}
use tunely.Relay.State.{
  AppState, new, fail_ws_pending, close_ws, for_each, fail_ws_pending_for_tunnel,
  close_ws_for_tunnel, owns,
}
use tunely.Relay.State
use tunely.Relay.State.Steps.{Op, step, run}

-- Each table has at most one entry for a key, and the tokens are those of the start.
pub record IsValid (tokens : List Text) (st : AppState) : Type 0 where
  pub tokens_kept : st.auth_tokens ≡ tokens
  pub agents_map : IsMap st.agents
  pub inflight_map : IsMap st.inflight
  pub pending_map : IsMap st.ws_pending
  pub streams_map : IsMap st.ws_streams

module _ {tokens : List Text} where
  for_each-IsValid :
      (round : AppState → Uuid → AppState × List Sent)
      → ((st : AppState) (id : Uuid) → IsValid tokens st → IsValid tokens (round st id).0)
      → (ids : List Uuid) (st : AppState) → IsValid tokens st
      → IsValid tokens (for_each round st ids).0
  unfolding for_each
  for_each-IsValid round keep [] st v = v
  for_each-IsValid round keep (id ∷ ids) st v =
      for_each-IsValid round keep ids (round st id).0 (keep st id v)

  fail_ws_pending-IsValid :
      (ok : Accepts) (reason : Text) (st : AppState) (id : Uuid)
      → IsValid tokens st
      → IsValid tokens (fail_ws_pending ok reason st id).0
  unfolding fail_ws_pending
  fail_ws_pending-IsValid ok reason st id v =
      ground (arith, remove-IsMap id st.ws_pending v.pending_map)

  close_ws-IsValid :
      (ok : Accepts) (code : Option ℕ) (reason : Text) (st : AppState) (id : Uuid)
      → IsValid tokens st
      → IsValid tokens (close_ws ok code reason st id).0
  unfolding close_ws
  close_ws-IsValid ok code reason st id v =
      ground (arith, remove-IsMap id st.ws_streams v.streams_map)

  remove_agent_if-IsValid :
      (ok : Accepts) (st : AppState) (t : Text) (c : Uuid)
      → IsValid tokens st
      → IsValid tokens (State.remove_agent_if ok st t c).0
  unfolding State.remove_agent_if fail_ws_pending_for_tunnel close_ws_for_tunnel
  remove_agent_if-IsValid ok st t c v = elim (Bool-cases (owns st t c)) [
    | inl mine ↦ rw mine (
        for_each-IsValid _ (close_ws-IsValid ok _ _) _ _ (
          for_each-IsValid _ (fail_ws_pending-IsValid ok _) _ _ (record {
            tokens_kept = v.tokens_kept;
            agents_map = remove-IsMap t st.agents v.agents_map;
            inflight_map = v.inflight_map;
            pending_map = v.pending_map;
            streams_map = v.streams_map;
          })))
    | inr other ↦ rw other v
  ]

  -- Every operation keeps the tables valid.
  pub step-IsValid :
      (ok : Accepts) (st : AppState) (op : Op)
      → IsValid tokens st
      → IsValid tokens (step ok st op).0
  unfolding step State.insert_agent_if_absent State.add_inflight State.remove_inflight
      State.notify_start State.notify_body State.notify_end State.notify_error State.add_ws_pending
      State.remove_ws_pending State.notify_ws_connect_ack State.add_ws_stream State.remove_ws_stream
      State.notify_ws_frame State.notify_ws_close
  step-IsValid ok st (Op.insert_agent_if_absent t h) v =
      ground (arith, insert-IsMap t h st.agents v.agents_map)
  step-IsValid ok st (Op.remove_agent_if t c) v = remove_agent_if-IsValid ok st t c v
  step-IsValid ok st (Op.add_inflight r s) v =
      ground (arith, insert-IsMap r s st.inflight v.inflight_map)
  step-IsValid ok st (Op.remove_inflight r) v =
      ground (arith, remove-IsMap r st.inflight v.inflight_map)
  step-IsValid ok st (Op.notify_start r status hs) v =
      ground (arith, remove-IsMap r st.inflight v.inflight_map)
  step-IsValid ok st (Op.notify_body r b) v =
      ground (arith, remove-IsMap r st.inflight v.inflight_map)
  step-IsValid ok st (Op.notify_end r) v = ground (arith, remove-IsMap r st.inflight v.inflight_map)
  step-IsValid ok st (Op.notify_error r c m) v =
      ground (arith, remove-IsMap r st.inflight v.inflight_map)
  step-IsValid ok st (Op.add_ws_pending i t s) v =
      ground (arith, insert-IsMap i (record { tunnel_id = t; tx = s }) st.ws_pending v.pending_map)
  step-IsValid ok st (Op.remove_ws_pending i) v =
      ground (arith, remove-IsMap i st.ws_pending v.pending_map)
  step-IsValid ok st (Op.notify_ws_connect_ack i a p r) v =
      ground (arith, remove-IsMap i st.ws_pending v.pending_map)
  step-IsValid ok st (Op.add_ws_stream i t s) v =
      ground
        (arith, insert-IsMap i (record { tunnel_id = t; sender = s }) st.ws_streams v.streams_map)
  step-IsValid ok st (Op.remove_ws_stream i) v =
      ground (arith, remove-IsMap i st.ws_streams v.streams_map)
  step-IsValid ok st (Op.notify_ws_frame i o p) v =
      ground (arith, remove-IsMap i st.ws_streams v.streams_map)
  step-IsValid ok st (Op.notify_ws_close i c r) v =
      ground (arith, remove-IsMap i st.ws_streams v.streams_map)

  pub run-IsValid :
      (ops : List (Accepts × Op)) (st : AppState) → IsValid tokens st → IsValid tokens (run st ops)
  unfolding run
  run-IsValid [] st v = v
  run-IsValid ((ok, op) ∷ ops) st v = run-IsValid ops (step ok st op).0 (step-IsValid ok st op v)

-- After any interleaving of the operations from the empty tables, each table has at most one
-- entry for a key, and the accepted tokens are still those that the relay was started with.
pub run-new-IsValid :
    (tokens : List Text) (secs : ℕ) (ops : List (Accepts × Op))
    → IsValid tokens (run (new tokens secs) ops)
unfolding new
run-new-IsValid tokens secs ops = run-IsValid ops _ (record {
  tokens_kept = refl;
  agents_map = tt;
  inflight_map = tt;
  pending_map = tt;
  streams_map = tt;
})
