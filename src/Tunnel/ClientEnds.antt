-- ===== src/Tunnel/ClientEnds.antt =====
-- The client's end of a tunnelled websocket, and what the local server gets of it:
-- crates/relay-server/src/ws_tunnel.rs and crates/agent/src/relay_client.rs.
use tunely.Prelude.{
  ℕ, ◌≡◌, refl, true, false, Option, none, some, [], ◌∷◌, ◌++◌, get_or_else, arith,
}
use tunely.Prelude.Bytes.{Text, codes}
use tunely.Prelude.Map.{lookup}
use tunely.Protocol.Message.{ControlMessage, Json}
use tunely.Agent.Events.{WsInboundEvent, ws_inbound}
use tunely.Agent.Events as AgentEvents
use tunely.Agent.Handshake.{IsFaithful}
use tunely.Agent.RelayClient.{RuntimeCtx, Tables, turn, handle_text_message, handle_control}
use tunely.Agent.WsStream
use tunely.Agent.WsStream.{inbound_turn}
use tunely.Relay.Events.{Message, Accepts, Packet, message, send_control}
use tunely.Relay.WsTunnel.{Socket, ClientRead, client_turn, client_close}
use tunely.Tunnel.ToLocal.{take_sent}

-- The code and the reason with which a read of the client ends the socket, if it does.
abbrev pub end_of : ClientRead → Option (ℕ × Option Text)
end_of ClientRead.ended = some (1000, some (codes "client socket ended"))
end_of (ClientRead.read_failed err) = some (1011, some (codes "client ws read error: " ++ err))
end_of (ClientRead.received (Message.close (some c))) = some (c.code, some c.reason)
end_of (ClientRead.received (Message.close none)) = some (1000, none)
end_of (ClientRead.received m) = none

client_turn-end_of :
    (s : Socket) (accepts : Accepts) (read : ClientRead) (code : ℕ) (reason : Option Text)
    → end_of read ≡ some (code, reason)
    → client_turn s accepts read ≡ client_close s accepts (some code) reason
unfolding client_turn
client_turn-end_of s accepts ClientRead.ended code reason e = ground arith
client_turn-end_of s accepts (ClientRead.read_failed err) code reason e = ground arith
client_turn-end_of s accepts (ClientRead.received (Message.close (some c))) code reason e =
    ground arith
client_turn-end_of s accepts (ClientRead.received (Message.close none)) code reason e = ground arith
client_turn-end_of s accepts (ClientRead.received (Message.text t)) code reason e = cc e
client_turn-end_of s accepts (ClientRead.received (Message.binary b)) code reason e = cc e
client_turn-end_of s accepts (ClientRead.received (Message.ping b)) code reason e = cc e
client_turn-end_of s accepts (ClientRead.received (Message.pong b)) code reason e = cc e

-- A control message that a channel took.
sent_message :
    (json : Json) (accepts : Accepts) (sender : ℕ) (msg : ControlMessage)
    → IsFaithful json msg
    → ((p : Packet) → accepts sender p ≡ true)
    → (text : Text) × ((send_control json accepts sender msg).0
        ≡ (sender, message (Message.text text)) ∷ [])
      × (json.from_str text ≡ some msg)
unfolding send_control
sent_message json accepts sender msg (text, writes, reads) takes =
    (text, rw (writes, send_control) (rw (takes (message (Message.text text)))), reads)

-- Whichever way the client's side ends a socket, by a close frame, by the end of its stream or by an
-- error, the relay's loop stops and tells the agent once, and the local server gets a close frame with
-- the client's code and reason, or 1000 if the client gave none, or 1011 with the error; then the
-- agent's stream stops too. The message must survive the JSON, the agent's channel take it, and the
-- agent have the stream in its table with an open channel.
pub client_end_reaches_local :
    (s : Socket) (accepts : Accepts) (read : ClientRead) (code : ℕ) (reason : Option Text)
    → end_of read ≡ some (code, reason)
    → IsFaithful s.json (ControlMessage.ws_close s.stream_id (some code) reason)
    → ((p : Packet) → accepts s.agent_sender p ≡ true)
    → (ctx : RuntimeCtx) (ok : AgentEvents.Accepts) (body : AgentEvents.Sender) (t : Tables)
      (tx : AgentEvents.Sender) (takes : WsStream.Takes)
    → lookup s.stream_id t.ws_sessions ≡ some tx
    → ((e : WsInboundEvent) → ok tx (ws_inbound e) ≡ true)
    → let close = WsInboundEvent.close (some code) reason in
      ((client_turn s accepts read).1 ≡ false)
      × (take_sent s.json ctx ok body t (client_turn s accepts read).0
          ≡ (t, (tx, ws_inbound close) ∷ []))
      × (inbound_turn takes (some close) ≡ (
        WsStream.put takes (AgentEvents.Message.close (some (code, get_or_else reason []))),
        false,
      ))
unfolding client_close take_sent turn handle_text_message handle_control
client_end_reaches_local s accepts read code reason ends faithful open_here ctx ok body t tx takes
      known open_there =
    let (text, sent, reads) = sent_message s.json accepts s.agent_sender _ faithful open_here in
    (
      rw (client_turn-end_of s accepts read code reason ends),
      rw (client_turn-end_of s accepts read code reason ends) (
          rw sent (
            rw (reads, handle_text_message, handle_control)
              (rw (known, handle_control)
                (rw (open_there (WsInboundEvent.close (some code) reason)))))),
      (unfold inbound_turn in refl),
    )
