-- ===== src/Agent/Connection/Examples.antt =====
-- A connection of crates/agent/src/relay_client.rs at concrete values.
use tunely.Prelude.{
  ℕ, zero, suc, Bool, Option, List, map, take, ◌≡◌, ◌++◌, refl, true, false, none, some, [], ◌∷◌,
}
use tunely.Prelude.Bytes.{Text, codes, uuid}
use tunely.Protocol.{is_supported_protocol_version}
use tunely.Protocol.Message.{ControlMessage, Json}
use tunely.Agent.Events.{Message, Accepts, send_control}
use tunely.Agent.Handshake.{
  IsFaithful, Config, RegisterAckInfo, AckRead, read_ack, wait_register_ack,
}
use tunely.Agent.RelayClient.{turn}
use tunely.Agent.WsStream.{SessionOp, apply_ops}
use tunely.Agent.Connection.{
  Read, Round, Start, connection_loop, no_tables, context, send_register, run_once, ping_task,
  writer_task,
}
use tunely.Agent.Connection.Cleanup.{run_once_last_round}
use tunely.Agent.Connection.Beats.{taken, others_only, streams_only}
use tunely.Agent.Connection.KeepAlive.{pings_answered}
use tunely.Agent.Proxy.Replies.{received_as}
use tunely.Relay.Events
use tunely.Relay.State.{AppState, new}
use tunely.Relay.WsSession
use tunely.Relay.WsSession.{Session, session_loop}
use tunely.Tunnel.ToClient.{seen_as}
use tunely.Tunnel.ToLocal.{read_as}

abbrev json : Json
json = record {
  to_string = λ msg. some (codes "{}");
  from_str = λ text. some (ControlMessage.register_ack true none (some 2) []);
}

abbrev config : Config
config = record {
  relay = codes "wss://relay/ws";
  tunnel_id = codes "demo";
  token = codes "tok";
  local_base = codes "http://127.0.0.1:3000";
  ping_interval_secs = 20;
  max_backoff_secs = 30;
}

abbrev start : Start
start = record {
  connects = true;
  takes = λ m. true;
  ack = AckRead.received (Message.text (codes "{}"));
  out_tx = 30;
}

abbrev info : RegisterAckInfo
info = record { relay_protocol_version = 2; relay_capabilities = [] }

-- A stream comes into the table, and the relay pings.
abbrev pinged : Round
pinged = record {
  others = SessionOp.insert_session (uuid 6) 20 ∷ [];
  accepts = λ s p. true;
  body = 40;
  read = Read.received (Message.ping []);
}

run_once_last_round_example :
    let ctx = context config 30 info in
    let t = connection_loop json ctx no_tables (pinged ∷ []) in
    let run = λ (read : Read).
      run_once json config start ((pinged ∷ []) ++ (record pinged { read = read } ∷ [])) in
    ((run Read.ended).0 ≡ no_tables)
    × ((run Read.ended).3 ≡ some true)
    × ((run (Read.received (Message.close none))).0 ≡ no_tables)
    × ((run (Read.received (Message.close none))).3 ≡ some true)
    × ((run Read.read_failed).0
        ≡ record { inflight = []; ws_sessions = apply_ops t.0.ws_sessions pinged.others })
    × ((run Read.read_failed).3 ≡ some false)
    × (is_supported_protocol_version ctx.relay_frame_version ≡ true)
unfolding send_register wait_register_ack connection_loop is_supported_protocol_version read_ack
    turn
run_once_last_round_example =
    run_once_last_round json config start (Message.text (codes "{}")) info (pinged ∷ []) [] pinged
      none refl refl refl refl

-- A JSON that knows pings and pongs only.
unfoldable beat_to_string : ControlMessage → Option Text
beat_to_string (ControlMessage.ping ts) = some (0 ∷ ts ∷ [])
beat_to_string (ControlMessage.pong ts) = some (1 ∷ ts ∷ [])
beat_to_string msg = none

unfoldable beat_from_str : Text → Option ControlMessage
beat_from_str (zero ∷ ts ∷ []) = some (ControlMessage.ping ts)
beat_from_str (suc zero ∷ ts ∷ []) = some (ControlMessage.pong ts)
beat_from_str text = none

abbrev beats : Json
beats = record { to_string = beat_to_string; from_str = beat_from_str }

abbrev beat_session : Session
beat_session = record { json = beats; digits = λ n. n ∷ []; out_tx = 10; connection_id = uuid 1 }

pings_survive : (ts : ℕ) → IsFaithful beats (ControlMessage.ping ts)
unfolding beat_to_string beat_from_str
pings_survive ts = (0 ∷ ts ∷ [], refl, refl)

pongs_survive : (ts : ℕ) → IsFaithful beats (ControlMessage.pong ts)
unfolding beat_to_string beat_from_str
pongs_survive ts = (1 ∷ ts ∷ [], refl, refl)

-- Three pings, of which the agent's socket takes two; the relay's socket takes one of the two pongs.
abbrev ticks : List (Accepts × ℕ)
ticks = (λ s p. true, 5) ∷ (λ s p. true, 7) ∷ (λ s p. true, 9) ∷ []

abbrev from_agent : List (Message × Bool)
from_agent =
    (Message.text (0 ∷ 5 ∷ []), true)
    ∷ (Message.text (0 ∷ 7 ∷ []), true)
    ∷ (Message.text (0 ∷ 9 ∷ []), false)
    ∷ []

abbrev heard : Text → WsSession.Round
heard text = record {
  others = [];
  accepts = λ s p. true;
  incoming = WsSession.Incoming.received (Events.Message.text text);
}

abbrev heard_rounds : List WsSession.Round
heard_rounds = heard (0 ∷ 5 ∷ []) ∷ heard (0 ∷ 7 ∷ []) ∷ []

abbrev to_agent : List (Events.Message × Bool)
to_agent = (Events.Message.text (1 ∷ 5 ∷ []), true) ∷ (Events.Message.text (1 ∷ 7 ∷ []), false) ∷ []

abbrev back_rounds : List Round
back_rounds =
    record {
      others = [];
      accepts = λ s p. true;
      body = 0;
      read = Read.received (Message.text (1 ∷ 5 ∷ []));
    }
    ∷ []

abbrev tables : AppState
tables = new (codes "tok" ∷ []) 60

pings_answered_example :
    ((session_loop beat_session tables heard_rounds).0 ≡ others_only tables heard_rounds)
    × (WsSession.writer_task to_agent
        ≡ map
            (λ ts. Events.Message.text (pongs_survive ts).0)
            (take (taken to_agent) (take 2 (5 ∷ 7 ∷ 9 ∷ []))))
    × (connection_loop beats (context config 30 info) no_tables back_rounds
        ≡ (streams_only no_tables back_rounds, [], [], none))
unfolding ping_task send_control writer_task seen_as received_as session_loop WsSession.turn
    WsSession.handle_text_message WsSession.handle_control Events.send_control WsSession.writer_task
    read_as beat_to_string beat_from_str taken
pings_answered_example =
    pings_answered beat_session (context config 30 info) tables no_tables 30 ticks from_agent
      heard_rounds to_agent back_rounds pings_survive pongs_survive
      ((λ p. refl), ((λ p. refl), ((λ p. refl), tt))) ((λ p. refl), ((λ p. refl), tt)) refl refl
      refl refl
