-- ===== src/Relay/State/Waiting.antt =====
-- crates/relay-server/src/state.rs: how long a request stays in the table `inflight`.
use tunely.Prelude.{◌≡◌, ◌≢◌, true, List, [], ◌∷◌, arith, some, All, Bool-cases, inl, inr}
use tunely.Prelude.Bytes.{text_eq, text_eq_iff}
use tunely.Prelude.Map.{lookup, lookup-insert, lookup-remove}
use tunely.Protocol.Message.{Uuid}
use tunely.Relay.Events.{RelayEvent, Sender, Accepts, relay_event}
use tunely.Relay.State
use tunely.Relay.State.{AppState, notify_body, notify_open}
use tunely.Relay.State.Steps.{Op, step, run}
use tunely.Relay.State.Requests.{remove_agent_if-inflight}

-- The operation does not end the request whose channel is `tx`: it is neither its registration, its
-- removal, its end or its error, and if it reports to the request, the channel takes the event.
abbrev pub Keeps : Uuid → Sender → Accepts → Op → Type 0
Keeps r tx ok (Op.add_inflight q s) = q ≢ r
Keeps r tx ok (Op.remove_inflight q) = q ≢ r
Keeps r tx ok (Op.notify_start q status headers) =
    q ≡ r → ok tx (relay_event (RelayEvent.start status headers)) ≡ true
Keeps r tx ok (Op.notify_body q bytes) = q ≡ r → ok tx (relay_event (RelayEvent.body bytes)) ≡ true
Keeps r tx ok (Op.notify_end q) = q ≢ r
Keeps r tx ok (Op.notify_error q code text) = q ≢ r
Keeps r tx ok op = Unit {0}

notify_open-stays :
    (ok : Accepts) (st : AppState) (q r : Uuid) (tx : Sender) (e : RelayEvent)
    → (q ≡ r → ok tx (relay_event e) ≡ true)
    → lookup r st.inflight ≡ some tx
    → lookup r (notify_open ok st q e).0.inflight ≡ some tx
unfolding notify_open
notify_open-stays ok st q r tx e keeps h = elim (Bool-cases (text_eq q r)) [
  | inl same ↦
      let here : q ≡ r = (text_eq_iff q r).0 same in
      rw here (rw (h, notify_open) (rw (keeps here) h))
  | inr other ↦ ground (arith, lookup-remove q r st.inflight)
]

step-stays :
    (ok : Accepts) (st : AppState) (r : Uuid) (tx : Sender) (op : Op)
    → Keeps r tx ok op
    → lookup r st.inflight ≡ some tx
    → lookup r (step ok st op).0.inflight ≡ some tx
unfolding step State.insert_agent_if_absent State.add_inflight State.remove_inflight
    State.notify_start State.notify_body State.notify_end State.notify_error State.add_ws_pending
    State.remove_ws_pending State.notify_ws_connect_ack State.add_ws_stream State.remove_ws_stream
    State.notify_ws_frame State.notify_ws_close
step-stays ok st r tx (Op.add_inflight q s) keeps h =
    ground (arith, lookup-insert q r s st.inflight, text_eq_iff q r)
step-stays ok st r tx (Op.remove_agent_if t c) keeps h = rw (remove_agent_if-inflight ok st t c) h
step-stays ok st r tx (Op.remove_inflight q) keeps h =
    ground (arith, lookup-remove q r st.inflight, text_eq_iff q r)
step-stays ok st r tx (Op.notify_start q status hs) keeps h =
    notify_open-stays ok st q r tx _ keeps h
step-stays ok st r tx (Op.notify_body q b) keeps h = notify_open-stays ok st q r tx _ keeps h
step-stays ok st r tx (Op.notify_end q) keeps h =
    ground (arith, lookup-remove q r st.inflight, text_eq_iff q r)
step-stays ok st r tx (Op.notify_error q c m) keeps h =
    ground (arith, lookup-remove q r st.inflight, text_eq_iff q r)
step-stays ok st r tx op keeps h = ground arith

-- A request stays in the table with its channel as long as it is not ended itself and its channel
-- takes what is reported to it, whatever the other tasks do, also when an agent disconnects.
pub request_stays :
    (r : Uuid) (tx : Sender) (ops : List (Accepts × Op)) (st : AppState)
    → lookup r st.inflight ≡ some tx
    → All (λ e. Keeps r tx e.0 e.1) ops
    → lookup r (run st ops).inflight ≡ some tx
unfolding run
request_stays r tx [] st h keeps = h
request_stays r tx ((ok, op) ∷ ops) st h keeps =
    request_stays r tx ops (step ok st op).0 (step-stays ok st r tx op keeps.0 h) keeps.1
