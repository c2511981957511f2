-- ===== src/Tunnel/LocalEnds.antt =====
-- The local server's end of a tunnelled websocket, and what the client gets of it:
-- crates/agent/src/relay_client.rs, crates/relay-server/src/ws_session.rs and src/ws_tunnel.rs.
use tunely.Prelude.{
  ℕ, ◌≡◌, refl, true, false, Option, none, some, [], ◌∷◌, ◌++◌, get_or_else, arith,
}
use tunely.Prelude.Bytes.{Text, codes}
use tunely.Prelude.Map.{lookup}
use tunely.Protocol.Message.{ControlMessage, Json, Uuid}
use tunely.Agent.Events.{Message, Accepts, Packet, to_relay, send_control}
use tunely.Agent.Handshake.{IsFaithful}
use tunely.Agent.RelayClient.{RuntimeCtx}
use tunely.Agent.Proxy.Replies.{take_one, take_replies}
use tunely.Agent.WsStream.{LocalRead, local_turn, local_close}
use tunely.Relay.Events
use tunely.Relay.Events.{WsRelayEvent, ws_event}
use tunely.Relay.State.{AppState, WsStreamHandle, notify_ws_close, remove_ws_stream}
use tunely.Relay.WsSession.{Session, turn, handle_text_message, handle_control}
use tunely.Relay.WsTunnel.{Takes, put, relay_turn}

-- The code and the reason with which a read of the local server ends the stream, if it does.
abbrev pub end_of : LocalRead → Option (ℕ × Option Text)
end_of LocalRead.ended = some (1000, some (codes "local ws ended"))
end_of (LocalRead.read_failed err) = some (1011, some (codes "local ws read error: " ++ err))
end_of (LocalRead.received (Message.close (some (code, reason)))) = some (code, some reason)
end_of (LocalRead.received (Message.close none)) = some (1000, none)
end_of (LocalRead.received m) = none

module _ (json : Json) (ctx : RuntimeCtx) (id : Uuid) where
  local_turn-end_of :
      (accepts : Accepts) (read : LocalRead) (code : ℕ) (reason : Option Text)
      → end_of read ≡ some (code, reason)
      → local_turn json ctx id accepts read ≡ local_close json ctx id accepts (some code) reason
  unfolding local_turn
  local_turn-end_of accepts LocalRead.ended code reason e = ground arith
  local_turn-end_of accepts (LocalRead.read_failed err) code reason e = ground arith
  local_turn-end_of accepts (LocalRead.received (Message.close (some (c, r)))) code reason e =
      ground arith
  local_turn-end_of accepts (LocalRead.received (Message.close none)) code reason e = ground arith
  local_turn-end_of accepts (LocalRead.received (Message.text t)) code reason e = cc e
  local_turn-end_of accepts (LocalRead.received (Message.binary b)) code reason e = cc e
  local_turn-end_of accepts (LocalRead.received (Message.ping b)) code reason e = cc e
  local_turn-end_of accepts (LocalRead.received (Message.pong b)) code reason e = cc e
  local_turn-end_of accepts (LocalRead.received (Message.raw_frame b)) code reason e = cc e

-- A control message that a channel took.
sent_message :
    (json : Json) (accepts : Accepts) (sender : ℕ) (msg : ControlMessage)
    → IsFaithful json msg
    → ((p : Packet) → accepts sender p ≡ true)
    → (text : Text) × ((send_control json accepts sender msg).0
        ≡ (sender, to_relay (Message.text text)) ∷ [])
      × (json.from_str text ≡ some msg)
unfolding send_control
sent_message json accepts sender msg (text, writes, reads) takes =
    (text, rw (writes, send_control) (rw (takes (to_relay (Message.text text)))), reads)

-- Whichever way the local server's side ends a stream, by a close frame, by the end of its stream or
-- by an error, the agent's loop stops and tells the relay once; the relay takes the stream out of its
-- table, and the client gets a close frame with the server's code and reason, or 1000 and "closed" if
-- the server gave none, or 1011 with the error; then the client's loop stops too. The message must
-- survive the JSON, the relay's channel take it, and the relay have the stream in its table with an
-- open channel.
pub local_end_reaches_client :
    (ws : Session) (ctx : RuntimeCtx) (id : Uuid) (accepts : Accepts) (read : LocalRead) (code : ℕ)
    (reason : Option Text)
    → end_of read ≡ some (code, reason)
    → IsFaithful ws.json (ControlMessage.ws_close id (some code) reason)
    → ((p : Packet) → accepts ctx.relay_tx p ≡ true)
    → (ok : Events.Accepts) (st : AppState) (handle : WsStreamHandle) (takes : Takes)
    → lookup id st.ws_streams ≡ some handle
    → ((e : WsRelayEvent) → ok handle.sender (ws_event e) ≡ true)
    → let close = WsRelayEvent.close (some code) reason in
      ((local_turn ws.json ctx id accepts read).1 ≡ false)
      × (take_replies ws ok st (local_turn ws.json ctx id accepts read).0
          ≡ (remove_ws_stream st id, (handle.sender, ws_event close) ∷ []))
      × (relay_turn takes (some close) ≡ (
        put takes (
            Events.Message.close
              (some (record { code = code; reason = get_or_else reason (codes "closed") }))),
        false,
      ))
unfolding local_close take_replies take_one turn handle_text_message handle_control notify_ws_close
    remove_ws_stream
local_end_reaches_client ws ctx id accepts read code reason ends faithful open_there ok st handle
      takes known open_here =
    let (text, sent, reads) = sent_message ws.json accepts ctx.relay_tx _ faithful open_there in
    (
      rw (local_turn-end_of ws.json ctx id accepts read code reason ends),
      rw (local_turn-end_of ws.json ctx id accepts read code reason ends) (
          rw sent (
            rw (reads, handle_text_message, handle_control)
              (rw (known, notify_ws_close)
                (rw (open_here (WsRelayEvent.close (some code) reason)))))),
      (unfold relay_turn in refl),
    )
