-- ===== src/Relay/State/Steps.antt =====
-- crates/relay-server/src/state.rs: the operations as steps of the shared tables. The tasks of the
-- relay interleave such steps in any order.
use tunely.Prelude.{ℕ, Bool, Option, List, [], ◌∷◌, ◌++◌}
use tunely.Prelude.Bytes.{Bytes, Text}
use tunely.Protocol.Message.{Uuid, Headers}
use tunely.Protocol.Frame.{WsOpcode}
use tunely.Relay.Events.{Sender, Sent, Accepts}
use tunely.Relay.State
use tunely.Relay.State.{AppState, AgentHandle}

pub data Op : Type 0 where
  insert_agent_if_absent : Text → AgentHandle → Op
  remove_agent_if : Text → Uuid → Op
  add_inflight : Uuid → Sender → Op
  remove_inflight : Uuid → Op
  notify_start : Uuid → ℕ → Headers → Op
  notify_body : Uuid → Bytes → Op
  notify_end : Uuid → Op
  notify_error : Uuid → Text → Text → Op
  add_ws_pending : Uuid → Text → Sender → Op
  remove_ws_pending : Uuid → Op
  notify_ws_connect_ack : Uuid → Bool → Option Text → Option Text → Op
  add_ws_stream : Uuid → Text → Sender → Op
  remove_ws_stream : Uuid → Op
  notify_ws_frame : Uuid → WsOpcode → Bytes → Op
  notify_ws_close : Uuid → Option ℕ → Option Text → Op

-- A step under the answers that the channels give during it.
unfoldable pub step : Accepts → AppState → Op → AppState × List Sent
step ok st (insert_agent_if_absent t h) = ((State.insert_agent_if_absent st t h).0, [])
step ok st (remove_agent_if t c) = State.remove_agent_if ok st t c
step ok st (add_inflight r s) = (State.add_inflight st r s, [])
step ok st (remove_inflight r) = (State.remove_inflight st r, [])
step ok st (notify_start r status hs) = State.notify_start ok st r status hs
step ok st (notify_body r b) = State.notify_body ok st r b
step ok st (notify_end r) = State.notify_end ok st r
step ok st (notify_error r c m) = State.notify_error ok st r c m
step ok st (add_ws_pending i t s) = (State.add_ws_pending st i t s, [])
step ok st (remove_ws_pending i) = (State.remove_ws_pending st i, [])
step ok st (notify_ws_connect_ack i a p r) = State.notify_ws_connect_ack ok st i a p r
step ok st (add_ws_stream i t s) = (State.add_ws_stream st i t s, [])
step ok st (remove_ws_stream i) = (State.remove_ws_stream st i, [])
step ok st (notify_ws_frame i o p) = State.notify_ws_frame ok st i o p
step ok st (notify_ws_close i c r) = State.notify_ws_close ok st i c r

-- A history, with the channels' answers at each step; the tables after it.
unfoldable pub run : AppState → List (Accepts × Op) → AppState
run st [] = st
run st ((ok, op) ∷ ops) = run (step ok st op).0 ops

-- What a history sent.
unfoldable pub run_sent : AppState → List (Accepts × Op) → List Sent
run_sent st [] = []
run_sent st ((ok, op) ∷ ops) = (step ok st op).1 ++ run_sent (step ok st op).0 ops
