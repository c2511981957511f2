-- ===== src/Relay/State/Examples.antt =====
-- The tables of crates/relay-server/src/state.rs at concrete contents: tests, and theorems at inputs.
use tunely.Prelude.{◌≡◌, ◌≢◌, ◌↔◌, ◌≤◌, refl, true, false, List, [], ◌∷◌, ◌++◌, All}
use tunely.Prelude.Bytes.{Text, codes, uuid, text_eq}
use tunely.Prelude.Map.{lookup, remove}
use tunely.Relay.Events.{Accepts}
use tunely.Relay.State.{AppState, AgentHandle, new, remove_agent_if, owns}
use tunely.Relay.State.TunnelId.{
  is_valid_tunnel_id, is_valid_tunnel_id_iff, is_tunnel_id_byte, IsTunnelIdByte,
}
use tunely.Relay.State.Steps.{Op, step, run}
use tunely.Relay.State.Valid.{IsValid}
use tunely.Relay.State.View.{view, no_entries, replay, effect}
use tunely.Relay.State.Reports.{Answers}
use tunely.Relay.State.Refinement.{run_refines}
use tunely.Relay.State.Requests.{silent_after_close}
use tunely.Relay.State.Disconnect.{
  of_others, of_tunnel, told, failure, closing, remove_agent_if_owner,
}

abbrev always : Accepts
always = λ s p. true

abbrev demo : Text
demo = codes "demo"

abbrev agent : AgentHandle
agent = record { connection_id = uuid 1; sender = 10; capabilities = []; protocol_version = 2 }

-- Two tunnels share the tables; the agent of `demo` has a pending connect and a stream.
abbrev busy : AppState
busy = record {
  auth_tokens = codes "tok" ∷ [];
  agents = (demo, agent) ∷ (codes "other", record agent { connection_id = uuid 2 }) ∷ [];
  inflight = (uuid 3, 11) ∷ [];
  ws_pending =
      (uuid 4, record { tunnel_id = codes "other"; tx = 12 })
      ∷ (uuid 5, record { tunnel_id = demo; tx = 13 })
      ∷ [];
  ws_streams = (uuid 6, record { tunnel_id = demo; sender = 14 }) ∷ [];
  request_timeout_secs = 60;
}

busy-IsValid : IsValid (codes "tok" ∷ []) busy
unfolding lookup text_eq
busy-IsValid = record {
  tokens_kept = refl;
  agents_map = (refl, (refl, tt));
  inflight_map = (refl, tt);
  pending_map = (refl, (refl, tt));
  streams_map = (refl, tt);
}

remove_agent_if_owner_example : remove_agent_if always busy demo (uuid 1) ≡ (
  record busy {
    agents = remove demo busy.agents;
    ws_pending = of_others (λ p. p.tunnel_id) demo busy.ws_pending;
    ws_streams = of_others (λ h. h.tunnel_id) demo busy.ws_streams;
  },
  told (failure always) (of_tunnel (λ p. p.tunnel_id) demo busy.ws_pending)
      ++ told (closing always) (of_tunnel (λ h. h.tunnel_id) demo busy.ws_streams),
)
unfolding owns lookup text_eq
remove_agent_if_owner_example =
    remove_agent_if_owner (codes "tok" ∷ []) always busy demo (uuid 1) busy-IsValid refl

abbrev history : List (Accepts × Op)
history =
    (always, Op.insert_agent_if_absent demo agent)
    ∷ (always, Op.add_inflight (uuid 3) 11)
    ∷ (always, Op.notify_end (uuid 3))
    ∷ (always, Op.remove_agent_if demo (uuid 1))
    ∷ []

run_refines_example :
    let st = run (new (codes "tok" ∷ []) 60) history in
    (view st ≡ replay no_entries history)
    × (view (step always st (Op.notify_end (uuid 3))).0
        ≡ effect always (replay no_entries history) (Op.notify_end (uuid 3)))
    × Answers always
        (replay no_entries history)
        (Op.notify_end (uuid 3))
        (step always st (Op.notify_end (uuid 3))).1
run_refines_example = run_refines (codes "tok" ∷ []) 60 history always (Op.notify_end (uuid 3))

silent_after_close_example :
    let st =
      run
        (step always busy (Op.notify_end (uuid 3))).0
        ((always, Op.add_inflight (uuid 7) 15) ∷ []) in
    step always st (Op.notify_body (uuid 3) (1 ∷ [])) ≡ (st, [])
silent_after_close_example =
    silent_after_close (uuid 3) busy always always (Op.notify_end (uuid 3))
      (Op.notify_body (uuid 3) (1 ∷ [])) ((always, Op.add_inflight (uuid 7) 15) ∷ []) refl
      (other_request, tt) refl
  where
    other_request : uuid 7 ≢ uuid 3
    other_request = λ e. cc

is_valid_tunnel_id_iff_example :
    (is_valid_tunnel_id (codes "demo_1") ≡ true)
    ↔ ((1 ≤ 6) × (6 ≤ 64) × All IsTunnelIdByte (codes "demo_1"))
is_valid_tunnel_id_iff_example = is_valid_tunnel_id_iff (codes "demo_1")

rejects_path : is_valid_tunnel_id (codes "bad/path") ≡ false
unfolding is_valid_tunnel_id is_tunnel_id_byte
rejects_path = refl
