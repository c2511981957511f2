-- ===== src/Relay/WsSession/Examples.antt =====
-- The session of crates/relay-server/src/ws_session.rs at concrete messages.
use mathlib.Core.List.{Mem}
use tunely.Prelude.{
  ◌≡◌, ◌≢◌, ◌↔◌, refl, true, false, none, some, if◌then◌else◌, List, [], ◌∷◌, arith,
}
use tunely.Prelude.Bytes.{codes, uuid, text_eq}
use tunely.Prelude.Map.{lookup, insert}
use tunely.Protocol.{is_supported_protocol_version, cap_ws_tunnel_v1}
use tunely.Protocol.Message.{ControlMessage, Json}
use tunely.Protocol.Frame.{ChunkHeader, StreamKind, IsHeader}
use tunely.Relay.Events.{Message, Sent, Accepts, send_control, message}
use tunely.Relay.State
use tunely.Relay.State.{
  AppState, AgentHandle, new, get_agent, notify_body, notify_end, notify_ws_frame, validate_token,
}
use tunely.Relay.State.TunnelId.{is_valid_tunnel_id, is_tunnel_id_byte}
use tunely.Relay.State.Steps.{Op, run}
use tunely.Relay.WsSession.{
  Session, FirstRead, Incoming, Round, register, session_loop, handle_socket, read_register_message,
}
use tunely.Relay.WsSession.Register.{Admissible, register_iff, validate_token_iff}
use tunely.Relay.WsSession.Tables.{session_ops, session_loop-view}
use tunely.Relay.State.View.{view, no_entries, replay}
use tunely.Relay.WsSession.Ownership.{session_loop_exclusive, handle_socket_releases}

abbrev always : Accepts
always = λ s p. true

abbrev register_demo : ControlMessage
register_demo =
    ControlMessage.register_agent (codes "demo") (codes "tok") (some 2) (cap_ws_tunnel_v1 ∷ [])

-- A JSON reader that knows one message.
abbrev json : Json
json = record { to_string = λ msg. some (codes "{}"); from_str = λ text. some register_demo }

abbrev session : Session
session = record { json = json; digits = λ n. n ∷ []; out_tx = 10; connection_id = uuid 1 }

abbrev fresh : AppState
fresh = record {
  auth_tokens = codes "tok" ∷ [];
  agents = [];
  inflight = (uuid 3, 11) ∷ [];
  ws_pending = [];
  ws_streams = (uuid 6, record { tunnel_id = codes "demo"; sender = 14 }) ∷ [];
  request_timeout_secs = 60;
}

abbrev handle : AgentHandle
handle = record {
  connection_id = uuid 1;
  sender = 10;
  capabilities = cap_ws_tunnel_v1 ∷ [];
  protocol_version = 2;
}

abbrev registered : AppState
registered = record fresh { agents = (codes "demo", handle) ∷ [] }

abbrev positive : List Sent
positive = (10, message (Message.text (codes "{}"))) ∷ []

register_demo_run :
    register session always fresh register_demo ≡ (registered, positive, some (codes "demo"))
unfolding register State.insert_agent_if_absent insert lookup validate_token text_eq
    is_valid_tunnel_id is_tunnel_id_byte is_supported_protocol_version send_control
register_demo_run = refl

validate_token_iff_example :
    (validate_token fresh (codes "tok") ≡ true) ↔ Mem (codes "tok") (codes "tok" ∷ [])
validate_token_iff_example = validate_token_iff fresh (codes "tok")

register_iff_example :
    ((register session always fresh register_demo).2 ≡ some (codes "demo"))
    ↔ Admissible fresh register_demo (codes "demo")
register_iff_example = register_iff session always fresh register_demo (codes "demo")

abbrev body_header : ChunkHeader
body_header = record { kind = StreamKind.response_body; request_id = uuid 3; seq = 7; fin = true }

body_header-IsHeader : IsHeader body_header
body_header-IsHeader = record { id_length = refl; seq_bound = omega arith }

abbrev ws_header : ChunkHeader
ws_header = record { kind = StreamKind.ws_local_frame; request_id = uuid 6; seq = 0; fin = true }

ws_header-IsHeader : IsHeader ws_header
ws_header-IsHeader = record { id_length = refl; seq_bound = omega arith }

-- A rival agent tries to take the tunnel while the session reads a ping.
abbrev rival : AgentHandle
rival = record handle { connection_id = uuid 2 }

abbrev rounds : List Round
rounds =
    record {
      others =
          (always, Op.insert_agent_if_absent (codes "demo") rival)
          ∷ (always, Op.remove_agent_if (codes "demo") (uuid 2))
          ∷ [];
      accepts = always;
      incoming = Incoming.received (Message.ping []);
    }
    ∷ []

two_is_not_one : uuid 2 ≢ uuid 1
two_is_not_one = λ e. cc

session_loop_exclusive_example :
    let now = run (session_loop session registered rounds).0 [] in
    ((h : AgentHandle) × (h.connection_id ≡ uuid 1)
      × (h.sender ≡ 10)
      × (get_agent now (codes "demo") ≡ some h))
    × (State.insert_agent_if_absent now (codes "demo") rival ≡ (now, false))
session_loop_exclusive_example =
    session_loop_exclusive session always fresh registered register_demo positive (codes "demo")
      rounds [] rival register_demo_run ((tt, (two_is_not_one, tt)), tt) tt

handle_socket_releases_example :
    get_agent
      (handle_socket session always
        (FirstRead.received (Message.text (codes "{}")))
        fresh
        rounds
        []
        always).0
      (codes "demo")
    ≡ (if text_eq (codes "demo") (codes "demo")
        then none
        else get_agent (run (session_loop session registered rounds).0 []) (codes "demo"))
unfolding read_register_message
handle_socket_releases_example =
    handle_socket_releases session always always (FirstRead.received (Message.text (codes "{}")))
      fresh registered register_demo positive (codes "demo") rounds [] (codes "demo") refl
      register_demo_run ((tt, (two_is_not_one, tt)), tt) tt

session_loop-view_example :
    view (session_loop session (run (new (codes "tok" ∷ []) 60) []) rounds).0
    ≡ replay no_entries (session_ops session rounds)
session_loop-view_example = session_loop-view (codes "tok" ∷ []) 60 [] session rounds
