-- ===== src/Relay/State/Reports.antt =====
-- crates/relay-server/src/state.rs: the operations that report to a request, a pending connect or a
-- stream, on tables and on functions.
use tunely.Prelude.{
  ℕ, Bool, ◌≡◌, refl, ap, sym, if◌then◌else◌, false, Option, none, some, List, [], Bool-cases,
  Option-cases, inl, inr,
}
use tunely.Prelude.Bytes.{Bytes, Text}
use tunely.Prelude.Map.{lookup}
use tunely.Protocol.Message.{Uuid}
use tunely.Protocol.Frame.{WsOpcode}
use tunely.Relay.Events.{RelayEvent, WsRelayEvent, Sent, Accepts, relay_event, ws_event}
use tunely.Relay.State.{AppState, AgentHandle, notify_open, notify_last, owns, new}
use tunely.Relay.State
use tunely.Relay.State.Steps.{Op, step}
use tunely.Relay.State.View.{View, view, update, effect, sends, holds, reported}
use tunely.Relay.State.Updates.{remove-update, absent-update}

abbrev pub with_inflight : AppState → (Uuid → Option ℕ) → View
with_inflight st f = record (view st) { inflight = f }

abbrev pub with_pending : AppState → (Uuid → Option State.WsPending) → View
with_pending st f = record (view st) { pending = f }

abbrev pub with_streams : AppState → (Uuid → Option State.WsStreamHandle) → View
with_streams st f = record (view st) { streams = f }

pub open_event :
    (ok : Accepts) (st : AppState) (r : Uuid) (e : RelayEvent)
    → (view (notify_open ok st r e).0 ≡ elim (lookup r st.inflight) [
      | none ↦ view st
      | some tx ↦
          if ok tx (relay_event e)
          then view st
          else (with_inflight st (update (view st).inflight r none))
    ])
      × ((notify_open ok st r e).1 ≡ reported ok (view st) r e)
unfolding notify_open
open_event ok st r e = elim (Option-cases (lookup r st.inflight)) [
  | inl absent ↦ rw (absent, notify_open, reported) (refl, refl)
  | inr (tx, here) ↦ elim (Bool-cases (ok tx (relay_event e))) [
    | inl takes ↦ rw (here, notify_open, reported) (rw takes (refl, refl))
    | inr gone ↦
        rw (here, notify_open, reported)
          (rw gone (ap (with_inflight st) (remove-update r st.inflight), refl))
  ]
]

pub last_event :
    (ok : Accepts) (st : AppState) (r : Uuid) (e : RelayEvent)
    → (view (notify_last ok st r e).0 ≡ with_inflight st (update (view st).inflight r none))
      × ((notify_last ok st r e).1 ≡ reported ok (view st) r e)
unfolding notify_last
last_event ok st r e = elim (Option-cases (lookup r st.inflight)) [
  | inl absent ↦
      rw (absent, notify_last, reported)
        (sym (ap (with_inflight st) (absent-update r st.inflight absent)), refl)
  | inr (tx, here) ↦
      rw (here, notify_last, reported) (ap (with_inflight st) (remove-update r st.inflight), refl)
]

-- What an operation sends is what the functions say; an agent's session that does not hold its
-- tunnel sends nothing when it ends.
abbrev pub Answers : Accepts → View → Op → List Sent → Type 0
Answers ok v (Op.remove_agent_if t c) out = holds v t c ≡ false → out ≡ []
Answers ok v op out = out ≡ sends ok v op

abbrev pub Refines : Accepts → AppState → Op → Type 0
Refines ok st op =
    (view (step ok st op).0 ≡ effect ok (view st) op) × Answers ok (view st) op (step ok st op).1

pub ack-Refines :
    (ok : Accepts) (st : AppState) (i : Uuid) (accepted : Bool) (selected reason : Option Text)
    → Refines ok st (Op.notify_ws_connect_ack i accepted selected reason)
unfolding step effect sends State.notify_ws_connect_ack
ack-Refines ok st i accepted selected reason = elim (Option-cases (lookup i st.ws_pending)) [
  | inl absent ↦
      rw (absent, State.notify_ws_connect_ack, effect, sends)
        (sym (ap (with_pending st) (absent-update i st.ws_pending absent)), refl)
  | inr (p, here) ↦
      rw (here, State.notify_ws_connect_ack, effect, sends)
        (ap (with_pending st) (remove-update i st.ws_pending), refl)
]

pub ws_close-Refines :
    (ok : Accepts) (st : AppState) (i : Uuid) (code : Option ℕ) (reason : Option Text)
    → Refines ok st (Op.notify_ws_close i code reason)
unfolding step effect sends State.notify_ws_close
ws_close-Refines ok st i code reason = elim (Option-cases (lookup i st.ws_streams)) [
  | inl absent ↦
      rw (absent, State.notify_ws_close, effect, sends)
        (sym (ap (with_streams st) (absent-update i st.ws_streams absent)), refl)
  | inr (h, here) ↦
      rw (here, State.notify_ws_close, effect, sends)
        (ap (with_streams st) (remove-update i st.ws_streams), refl)
]

pub ws_frame-Refines :
    (ok : Accepts) (st : AppState) (i : Uuid) (opcode : WsOpcode) (payload : Bytes)
    → Refines ok st (Op.notify_ws_frame i opcode payload)
unfolding step effect sends State.notify_ws_frame
ws_frame-Refines ok st i opcode payload = elim (Option-cases (lookup i st.ws_streams)) [
  | inl absent ↦ rw (absent, State.notify_ws_frame, effect, sends) (refl, refl)
  | inr (h, here) ↦ elim (Bool-cases (ok h.sender (ws_event (WsRelayEvent.frame opcode payload)))) [
    | inl takes ↦ rw (here, State.notify_ws_frame, effect, sends) (rw takes (refl, refl))
    | inr gone ↦
        rw (here, State.notify_ws_frame, effect, sends)
          (rw gone (ap (with_streams st) (remove-update i st.ws_streams), refl))
  ]
]
