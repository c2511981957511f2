-- ===== src/Relay/State/Requests.antt =====
-- crates/relay-server/src/state.rs: the life of an entry of `inflight` and of `ws_pending`.
use tunely.Prelude.{
  ℕ, ◌≡◌, ◌≢◌, refl, ◌∙◌, inl, inr, List, [], ◌∷◌, arith, Option, none, All, Bool-cases,
}
use tunely.Prelude.Bytes.{Text, text_eq_iff}
use tunely.Prelude.Map.{lookup, lookup-insert, lookup-remove}
use tunely.Protocol.Message.{Uuid}
use tunely.Relay.Events.{Sent, Accepts}
use tunely.Relay.State.{
  AppState, fail_ws_pending, close_ws, for_each, fail_ws_pending_for_tunnel, close_ws_for_tunnel,
  owns,
}
use tunely.Relay.State
use tunely.Relay.State.Steps.{Op, step, run}

-- The operations that end a request, those that report to it, and all but its registration.
abbrev pub Closes : Uuid → Op → Type 0
Closes r (Op.notify_end q) = q ≡ r
Closes r (Op.notify_error q c m) = q ≡ r
Closes r (Op.remove_inflight q) = q ≡ r
Closes r op = ⊥

abbrev pub Notifies : Uuid → Op → Type 0
Notifies r (Op.notify_start q status hs) = q ≡ r
Notifies r (Op.notify_body q b) = q ≡ r
Notifies r (Op.notify_end q) = q ≡ r
Notifies r (Op.notify_error q c m) = q ≡ r
Notifies r op = ⊥

abbrev pub NotAdd : Uuid → Op → Type 0
NotAdd r (Op.add_inflight q s) = q ≢ r
NotAdd r op = Unit {0}

-- Rounds that leave a table alone leave it alone together.
pub for_each-keeps {ℓ} :
    {T : Type ℓ} (table : AppState → T) (round : AppState → Uuid → AppState × List Sent)
    → ((st : AppState) (id : Uuid) → table (round st id).0 ≡ table st)
    → (ids : List Uuid) (st : AppState) → table (for_each round st ids).0 ≡ table st
unfolding for_each
for_each-keeps table round keep [] st = refl
for_each-keeps table round keep (id ∷ ids) st =
    for_each-keeps table round keep ids (round st id).0 ∙ keep st id

fail_ws_pending-inflight :
    (ok : Accepts) (reason : Text) (st : AppState) (id : Uuid)
    → (fail_ws_pending ok reason st id).0.inflight ≡ st.inflight
unfolding fail_ws_pending
fail_ws_pending-inflight ok reason st id = ground arith

close_ws-inflight :
    (ok : Accepts) (code : Option ℕ) (reason : Text) (st : AppState) (id : Uuid)
    → (close_ws ok code reason st id).0.inflight ≡ st.inflight
unfolding close_ws
close_ws-inflight ok code reason st id = ground arith

pub remove_agent_if-inflight :
    (ok : Accepts) (st : AppState) (t : Text) (c : Uuid)
    → (State.remove_agent_if ok st t c).0.inflight ≡ st.inflight
unfolding State.remove_agent_if fail_ws_pending_for_tunnel close_ws_for_tunnel
remove_agent_if-inflight ok st t c = elim (Bool-cases (owns st t c)) [
  | inl mine ↦ rw mine (
      for_each-keeps (λ s. s.inflight) _ (close_ws-inflight ok _ _) _ _
      ∙ for_each-keeps (λ s. s.inflight) _ (fail_ws_pending-inflight ok _) _ _)
  | inr other ↦ rw other
]

-- An absent entry stays absent until it is added.
step-absent :
    (ok : Accepts) (st : AppState) (r : Uuid) (op : Op)
    → NotAdd r op
    → lookup r st.inflight ≡ none
    → lookup r (step ok st op).0.inflight ≡ none
unfolding step State.insert_agent_if_absent State.add_inflight State.remove_inflight
    State.notify_start State.notify_body State.notify_end State.notify_error State.add_ws_pending
    State.remove_ws_pending State.notify_ws_connect_ack State.add_ws_stream State.remove_ws_stream
    State.notify_ws_frame State.notify_ws_close
step-absent ok st r (Op.add_inflight q s) new h =
    ground (arith, lookup-insert q r s st.inflight, text_eq_iff q r)
step-absent ok st r (Op.remove_agent_if t c) new h = rw (remove_agent_if-inflight ok st t c) h
step-absent ok st r (Op.remove_inflight q) new h = ground (arith, lookup-remove q r st.inflight)
step-absent ok st r (Op.notify_start q status hs) new h =
    ground (arith, lookup-remove q r st.inflight)
step-absent ok st r (Op.notify_body q b) new h = ground (arith, lookup-remove q r st.inflight)
step-absent ok st r (Op.notify_end q) new h = ground (arith, lookup-remove q r st.inflight)
step-absent ok st r (Op.notify_error q c m) new h = ground (arith, lookup-remove q r st.inflight)
step-absent ok st r op new h = ground arith

run-absent :
    (r : Uuid) (ops : List (Accepts × Op)) (st : AppState)
    → All (λ e. NotAdd r e.1) ops
    → lookup r st.inflight ≡ none
    → lookup r (run st ops).inflight ≡ none
unfolding run
run-absent r [] st new h = h
run-absent r ((ok, op) ∷ ops) st new h =
    run-absent r ops (step ok st op).0 new.1 (step-absent ok st r op new.0 h)

close-absent :
    (ok : Accepts) (st : AppState) (r : Uuid) (op : Op)
    → Closes r op
    → lookup r (step ok st op).0.inflight ≡ none
unfolding step State.remove_inflight State.notify_end State.notify_error
close-absent ok st r (Op.notify_end q) h =
    ground (arith, lookup-remove q r st.inflight, text_eq_iff q r)
close-absent ok st r (Op.notify_error q c m) h =
    ground (arith, lookup-remove q r st.inflight, text_eq_iff q r)
close-absent ok st r (Op.remove_inflight q) h =
    ground (arith, lookup-remove q r st.inflight, text_eq_iff q r)
close-absent ok st r op h = absurd h

pub notify_absent :
    (ok : Accepts) (st : AppState) (r : Uuid) (op : Op)
    → Notifies r op
    → lookup r st.inflight ≡ none
    → step ok st op ≡ (st, [])
unfolding step State.notify_start State.notify_body State.notify_end State.notify_error
notify_absent ok st r (Op.notify_start q status hs) e h = ground arith
notify_absent ok st r (Op.notify_body q b) e h = ground arith
notify_absent ok st r (Op.notify_end q) e h = ground arith
notify_absent ok st r (Op.notify_error q c m) e h = ground arith
notify_absent ok st r op e h = absurd e

-- Once a request was ended, failed or dropped, whatever the tasks do next, an event that the agent
-- reports for it is not sent and changes nothing, unless its identifier was registered again.
pub silent_after_close :
    (r : Uuid) (st : AppState) (ok ok' : Accepts) (last late : Op) (ops : List (Accepts × Op))
    → Closes r last
    → All (λ e. NotAdd r e.1) ops
    → Notifies r late
    → step ok' (run (step ok st last).0 ops) late ≡ (run (step ok st last).0 ops, [])
silent_after_close r st ok ok' last late ops closes new about =
    notify_absent ok' _ r late about (run-absent r ops _ new (close-absent ok st r last closes))
