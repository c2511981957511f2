-- ===== src/Agent/Connection.antt =====
-- crates/agent/src/relay_client.rs: `run_once`, one connection to the relay from its start to its end,
-- and its ping
-- and writer tasks. The websocket library's answers are arguments.
pub mod Cleanup
mod Beats
mod KeepAlive
mod Examples
use tunely.Prelude.{
  ℕ, Bool, true, false, not, Option, none, some, List, [], ◌∷◌, ◌++◌, if◌then◌else◌,
}
use tunely.Prelude.Bytes.{Text}
use tunely.Protocol.Message.{ControlMessage, Json}
use tunely.Agent.Events.{Message, Sender, Sent, Accepts, send_control}
use tunely.Agent.Handshake.{
  Config, Result, ok, err, RegisterAckInfo, AckRead, register_message, wait_register_ack,
  relay_supports_ws,
}
use tunely.Agent.RelayClient.{RuntimeCtx, Tables, Spawned, inflight_clear, turn}
use tunely.Agent.WsStream.{SessionOp, apply_ops}

-- `send_register`: the message that went out, if it did.
unfoldable pub send_register : Json → (Message → Bool) → Config → Option Message
unfolding register_message
send_register json takes config = elim (json.to_string (register_message config)) [
  | none ↦ none
  | some payload ↦ if takes (Message.text payload) then some (Message.text payload) else none
]

-- What `ws_reader.next()` gives.
pub data Read : Type 0 where
  received : Message → Read
  ended read_failed : Read

-- One round of the loop: what the streams' tasks do to their table before it, the channels' answers,
-- the fresh channel for the body of a new request, and what is read.
pub record Round : Type 0 where
  pub others : List SessionOp
  pub accepts : Accepts
  pub body : Sender
  pub read : Read

-- How `run_once` returned: without error or with one. `none` stands for a connection that is open.
abbrev pub Returned : Type 0
Returned = Option Bool

-- One round after what the other tasks did.
unfoldable pub round :
    Json → RuntimeCtx → Tables → Round → Read → Tables × List Sent × List Spawned × Returned
round json ctx t r (received msg) =
    let (t', sent, tasks, more) = turn json ctx r.accepts t r.body msg in
    (t', sent, tasks, if more then none else some true)
round json ctx t r ended = (t, [], [], some true)
round json ctx t r read_failed = (t, [], [], some false)

unfoldable pub connection_loop :
    Json → RuntimeCtx → Tables → List Round → Tables × List Sent × List Spawned × Returned
unfolding round
connection_loop json ctx t [] = (t, [], [], none)
connection_loop json ctx t (r ∷ rs) =
    let t₁ = record t { ws_sessions = apply_ops t.ws_sessions r.others } in
    let (t₂, sent, tasks, returned) = round json ctx t₁ r r.read in
    let rest = connection_loop json ctx t₂ rs in
    elim returned [
      | none ↦ (rest.0, sent ++ rest.1, tasks ++ rest.2, rest.3)
      | some how ↦ (t₂, sent, tasks, some how)
    ]

abbrev pub no_tables : Tables
no_tables = record { inflight = []; ws_sessions = [] }

-- The context of a registered connection.
unfoldable pub context : Config → Sender → RegisterAckInfo → RuntimeCtx
unfolding relay_supports_ws
context config out_tx info = record {
  relay_tx = out_tx;
  local_base = config.local_base;
  relay_supports_ws = relay_supports_ws info;
  relay_frame_version = info.relay_protocol_version;
}

-- The tables after the return. A read error returns at once, without the clean-up after the loop: the
-- table of requests, a local of `run_once`, is dropped, and the shared table of streams is kept.
unfoldable pub finish : Tables → Returned → Tables
unfolding inflight_clear
finish t (some true) = record { inflight = inflight_clear t.inflight; ws_sessions = [] }
finish t (some false) = record { inflight = []; ws_sessions = t.ws_sessions }
finish t none = t

-- The library's answers at the start: whether it connects, whether it takes the first message, and
-- what it reads for the acknowledgement; and the connection's channel.
pub record Start : Type 0 where
  pub connects : Bool
  pub takes : Message → Bool
  pub ack : AckRead
  pub out_tx : Sender

unfoldable pub run_once :
    Json → Config → Start → List Round → Tables × List Sent × List Spawned × Returned
unfolding send_register wait_register_ack connection_loop context finish
run_once json config start rounds =
    if not start.connects
    then (no_tables, [], [], some false)
    else elim (send_register json start.takes config) [
      | none ↦ (no_tables, [], [], some false)
      | some msg ↦ elim (wait_register_ack json start.ack) [
        | err e ↦ (no_tables, [], [], some false)
        | ok info ↦
            let (t, sent, tasks, returned) =
              connection_loop json (context config start.out_tx info) no_tables rounds in
            (finish t returned, sent, tasks, returned)
      ]
    ]

-- The ping task over its ticks, with the channels' answers and the time at each.
unfoldable pub ping_task : Json → Sender → List (Accepts × ℕ) → List Sent
ping_task json ping_tx [] = []
ping_task json ping_tx ((accepts, ts_ms) ∷ ticks) =
    let (sent, delivered) = send_control json accepts ping_tx (ControlMessage.ping ts_ms) in
    let rest = ping_task json ping_tx ticks in if delivered then sent ++ rest else sent

-- The writer task: the messages that it takes from the channel, each with whether the socket takes
-- it, and what goes out.
unfoldable pub writer_task : List (Message × Bool) → List Message
writer_task [] = []
writer_task ((msg, takes) ∷ messages) =
    let sent = writer_task messages in if takes then msg ∷ sent else []
