-- ===== src/Relay/State/Refinement.antt =====
-- crates/relay-server/src/state.rs: the operations on the tables implement those on functions.
use tunely.Prelude.{
  ℕ, ◌≡◌, refl, ap, sym, ◌∙◌, true, false, none, List, [], ◌∷◌, Bool-cases, inl, inr, is_some,
}
use mathlib.Core.Path.{fun_ext, subst}
use tunely.Prelude.Bytes.{Text}
use tunely.Prelude.Map.{lookup, remove}
use tunely.Protocol.Message.{Uuid}
use tunely.Relay.Events.{Sent, Accepts}
use tunely.Relay.State.{AppState, AgentHandle, notify_open, notify_last, owns, new}
use tunely.Relay.State
use tunely.Relay.State.Steps.{Op, step, run}
use tunely.Relay.State.Valid.{IsValid, step-IsValid, run-new-IsValid}
use tunely.Relay.State.Disconnect.{of_others, remove_agent_if_owner}
use tunely.Relay.State.View.{View, view, no_entries, update, without, effect, sends, replay, holds}
use tunely.Relay.State.Updates.{insert-update, remove-update, lookup-of_others}
use tunely.Relay.State.Reports.{
  Refines, Answers, with_inflight, with_pending, with_streams, open_event, last_event, ack-Refines,
  ws_close-Refines, ws_frame-Refines,
}

holds-owns : (st : AppState) (t : Text) (c : Uuid) → holds (view st) t c ≡ owns st t c
unfolding owns
holds-owns st t c = refl

effect_owner :
    (ok : Accepts) (v : View) (t : Text) (c : Uuid)
    → holds v t c ≡ true
    → effect ok v (Op.remove_agent_if t c) ≡ record v {
      agents = update v.agents t none;
      pending = without (λ p. p.tunnel_id) t v.pending;
      streams = without (λ h. h.tunnel_id) t v.streams;
    }
unfolding effect
effect_owner ok v t c h = rw h refl

effect_stale :
    (ok : Accepts) (v : View) (t : Text) (c : Uuid)
    → holds v t c ≡ false
    → effect ok v (Op.remove_agent_if t c) ≡ v
unfolding effect
effect_stale ok v t c h = rw h refl

owner_view :
    (tokens : List Text) (st : AppState) (t : Text)
    → IsValid tokens st
    → view (record st {
      agents = remove t st.agents;
      ws_pending = of_others (λ p. p.tunnel_id) t st.ws_pending;
      ws_streams = of_others (λ h. h.tunnel_id) t st.ws_streams;
    })
      ≡ record (view st) {
        agents = update (view st).agents t none;
        pending = without (λ p. p.tunnel_id) t (view st).pending;
        streams = without (λ h. h.tunnel_id) t (view st).streams;
      }
owner_view tokens st t v = λ i. record (view st) {
  agents = remove-update t st.agents i;
  pending =
      (fun_ext λ k.
          lookup-of_others (λ (p : State.WsPending). p.tunnel_id) t k st.ws_pending v.pending_map)
        i;
  streams =
      (fun_ext λ k.
          lookup-of_others (λ (h : State.WsStreamHandle). h.tunnel_id) t k st.ws_streams
            v.streams_map)
        i;
}

disconnect-Refines :
    (tokens : List Text) (ok : Accepts) (st : AppState) (t : Text) (c : Uuid)
    → IsValid tokens st
    → Refines ok st (Op.remove_agent_if t c)
unfolding step
disconnect-Refines tokens ok st t c v =
    let same : holds (view st) t c ≡ owns st t c = holds-owns st t c in
    elim (Bool-cases (owns st t c)) [
      | inl mine ↦
          let holder : holds (view st) t c ≡ true = same ∙ mine in
          (
            ap (λ (r : AppState × List Sent). view r.0)
                  (remove_agent_if_owner tokens ok st t c v mine)
                ∙ owner_view tokens st t v
                ∙ sym (effect_owner ok (view st) t c holder),
            λ stale. absurd (cc (holder, stale)),
          )
      | inr other ↦
          let nothing : State.remove_agent_if ok st t c ≡ (st, []) =
            unfold State.remove_agent_if in rw other refl in
          (
            ap (λ (r : AppState × List Sent). view r.0) nothing
                ∙ sym (effect_stale ok (view st) t c (same ∙ other)),
            λ stale. ap (λ (r : AppState × List Sent). r.1) nothing,
          )
    ]

insert-Refines :
    (ok : Accepts) (st : AppState) (t : Text) (h : AgentHandle)
    → Refines ok st (Op.insert_agent_if_absent t h)
unfolding step effect sends State.insert_agent_if_absent
insert-Refines ok st t h = elim (Bool-cases (is_some (lookup t st.agents))) [
  | inl taken ↦ rw taken (refl, refl)
  | inr free ↦ rw free (
    ap (λ f. let v : View = record (view st) { agents = f } in v) (insert-update t h st.agents),
    refl,
  )
]

step-Refines :
    (tokens : List Text) (ok : Accepts) (st : AppState) (op : Op)
    → IsValid tokens st
    → Refines ok st op
unfolding step effect sends State.insert_agent_if_absent State.add_inflight State.remove_inflight
    State.notify_start State.notify_body State.notify_end State.notify_error State.add_ws_pending
    State.remove_ws_pending State.notify_ws_connect_ack State.add_ws_stream State.remove_ws_stream
    State.notify_ws_frame State.notify_ws_close
step-Refines tokens ok st (Op.insert_agent_if_absent t h) v = insert-Refines ok st t h
step-Refines tokens ok st (Op.remove_agent_if t c) v = disconnect-Refines tokens ok st t c v
step-Refines tokens ok st (Op.add_inflight r s) v =
    (ap (with_inflight st) (insert-update r s st.inflight), refl)
step-Refines tokens ok st (Op.remove_inflight r) v =
    (ap (with_inflight st) (remove-update r st.inflight), refl)
step-Refines tokens ok st (Op.notify_start r status hs) v = open_event ok st r _
step-Refines tokens ok st (Op.notify_body r b) v = open_event ok st r _
step-Refines tokens ok st (Op.notify_end r) v = last_event ok st r _
step-Refines tokens ok st (Op.notify_error r code m) v = last_event ok st r _
step-Refines tokens ok st (Op.add_ws_pending i t s) v =
    (ap (with_pending st) (insert-update i _ st.ws_pending), refl)
step-Refines tokens ok st (Op.remove_ws_pending i) v =
    (ap (with_pending st) (remove-update i st.ws_pending), refl)
step-Refines tokens ok st (Op.notify_ws_connect_ack i a p r) v = ack-Refines ok st i a p r
step-Refines tokens ok st (Op.add_ws_stream i t s) v =
    (ap (with_streams st) (insert-update i _ st.ws_streams), refl)
step-Refines tokens ok st (Op.remove_ws_stream i) v =
    (ap (with_streams st) (remove-update i st.ws_streams), refl)
step-Refines tokens ok st (Op.notify_ws_frame i o p) v = ws_frame-Refines ok st i o p
step-Refines tokens ok st (Op.notify_ws_close i code r) v = ws_close-Refines ok st i code r

run-replay :
    (tokens : List Text) (ops : List (Accepts × Op)) (st : AppState)
    → IsValid tokens st
    → view (run st ops) ≡ replay (view st) ops
unfolding run replay
run-replay tokens [] st v = refl
run-replay tokens ((ok, op) ∷ ops) st v =
    run-replay tokens ops (step ok st op).0 (step-IsValid ok st op v)
    ∙ ap (λ w. replay w ops) (step-Refines tokens ok st op v).0

pub run-new-replay :
    (tokens : List Text) (secs : ℕ) (ops : List (Accepts × Op))
    → view (run (new tokens secs) ops) ≡ replay no_entries ops
unfolding new lookup
run-new-replay tokens secs ops =
    let start : IsValid tokens (new tokens secs) = unfold run in run-new-IsValid tokens secs [] in
    run-replay tokens ops (new tokens secs) start

-- The shared tables behave as functions from identifiers to entries, whatever order or shape they
-- keep their entries in. After any interleaving of the operations from the start, they read as the
-- same operations on functions do; and what the next operation sends is what these functions say,
-- where of the end of an agent's session it is said only that it sends nothing if the session does
-- not hold the tunnel.
pub run_refines :
    (tokens : List Text) (secs : ℕ) (ops : List (Accepts × Op)) (ok : Accepts) (op : Op)
    → let st = run (new tokens secs) ops in
      (view st ≡ replay no_entries ops)
      × (view (step ok st op).0 ≡ effect ok (replay no_entries ops) op)
      × Answers ok (replay no_entries ops) op (step ok st op).1
run_refines tokens secs ops ok op =
    let valid = run-new-IsValid tokens secs ops in
    let same = run-new-replay tokens secs ops in
    let next = step-Refines tokens ok (run (new tokens secs) ops) op valid in
    (
      same,
      next.0 ∙ ap (λ v. effect ok v op) same,
      subst (λ v. Answers ok v op (step ok (run (new tokens secs) ops) op).1) same next.1,
    )
