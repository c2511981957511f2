-- ===== src/Agent/Connection/KeepAlive.antt =====
-- The pings of crates/agent/src/relay_client.rs and the pongs of crates/relay-server/src/ws_session.rs,
-- from the agent's ping task to the relay's session and back, with the writer tasks between.
use tunely.Prelude.{ℕ, ◌≡◌, refl, ap, ◌∙◌, Bool, true, none, List, [], ◌∷◌, map, take, All}
use tunely.Prelude.Bytes.{Text}
use tunely.Protocol.Message.{ControlMessage}
use tunely.Agent.Events.{Message, Sender, Sent, Accepts, Packet, to_relay}
use tunely.Agent.Handshake.{IsFaithful}
use tunely.Agent.RelayClient.{RuntimeCtx, Tables}
use tunely.Agent.Connection.{Read, Round, connection_loop, ping_task, writer_task}
use tunely.Agent.Proxy.Replies.{received_as}
use tunely.Relay.Events
use tunely.Relay.State.{AppState}
use tunely.Relay.WsSession
use tunely.Relay.WsSession.{Session, session_loop}
use tunely.Tunnel.ToClient.{seen_as}
use tunely.Tunnel.ToLocal.{read_as}
use tunely.Agent.Connection.Beats.{
  taken, take-map, writer_task-agent, writer_task-relay, others_only, streams_only, cons-injective,
  ping_task-open, session_loop-pings, connection_loop-pongs,
}

-- What the writer tasks take from their channels.
abbrev pub to_writer : Sender → Message → Sent
to_writer tx m = (tx, to_relay m)

abbrev pub to_relay_writer : Events.Sender → Events.Message → Events.Sent
to_relay_writer tx m = (tx, Events.message m)

-- The messages on a channel that holds only texts for numbers.
on_channel-agent :
    (tx : Sender) (f : ℕ → Text) (messages : List (Message × Bool)) (ticks : List (Accepts × ℕ))
    → map (λ m. to_writer tx m.0) messages ≡ map (λ k. to_writer tx (Message.text (f k.1))) ticks
    → map (λ m. m.0) messages ≡ map (λ ts. Message.text (f ts)) (map (λ k. k.1) ticks)
on_channel-agent tx f [] [] e = refl
on_channel-agent tx f [] (k ∷ ticks) e = cc
on_channel-agent tx f (m ∷ messages) [] e = cc
on_channel-agent tx f (m ∷ messages) (k ∷ ticks) e =
    let (first, more) = cons-injective e in
    let same : m.0 ≡ Message.text (f k.1) = cc first in
    rw (same, on_channel-agent tx f messages ticks more) refl

on_channel-relay :
    (tx : Events.Sender) (g : ℕ → Text) (messages : List (Events.Message × Bool)) (times : List ℕ)
    → map (λ m. to_relay_writer tx m.0) messages
      ≡ map (λ ts. to_relay_writer tx (Events.Message.text (g ts))) times
    → map (λ m. m.0) messages ≡ map (λ ts. Events.Message.text (g ts)) times
on_channel-relay tx g [] [] e = refl
on_channel-relay tx g [] (k ∷ times) e = cc
on_channel-relay tx g (m ∷ messages) [] e = cc
on_channel-relay tx g (m ∷ messages) (ts ∷ times) e =
    let (first, more) = cons-injective e in
    let same : m.0 ≡ Events.Message.text (g ts) = cc first in
    rw (same, on_channel-relay tx g messages times more) refl

seen_as-texts :
    (f : ℕ → Text) (times : List ℕ)
    → map WsSession.Incoming.received (seen_as (map (λ ts. Message.text (f ts)) times))
      ≡ map (λ ts. WsSession.Incoming.received (Events.Message.text (f ts))) times
unfolding seen_as received_as
seen_as-texts f [] = refl
seen_as-texts f (ts ∷ times) =
    ap (◌∷◌ (WsSession.Incoming.received (Events.Message.text (f ts)))) (seen_as-texts f times)

read_as-texts :
    (g : ℕ → Text) (times : List ℕ)
    → map (λ m. Read.received (read_as m)) (map (λ ts. Events.Message.text (g ts)) times)
      ≡ map (λ ts. Read.received (Message.text (g ts))) times
unfolding read_as
read_as-texts g [] = refl
read_as-texts g (ts ∷ times) =
    ap (◌∷◌ (Read.received (Message.text (g ts)))) (read_as-texts g times)

-- Pings keep a connection alive and change nothing. Given a channel of the agent that holds what the
-- ping task put there, a session that reads what the agent's writer task sends, and a connection that
-- reads what the session's writer task sends, nothing else being sent; if both channels are open and
-- pings and pongs survive the JSON, then the relay answers the pings in order, each with a pong of its
-- time, as far as the agent's socket took them, and the agent reads these pongs as far as the relay's
-- socket took them; the relay's tables change only by what other tasks do, and so do the agent's, whose
-- loop goes on and sends nothing.
pub pings_answered :
    (s : Session) (ctx : RuntimeCtx) (st : AppState) (t : Tables) (tx : Sender)
    (ticks : List (Accepts × ℕ)) (from_agent : List (Message × Bool))
    (rounds : List WsSession.Round) (to_agent : List (Events.Message × Bool))
    (agent_rounds : List Round) (pings : (ts : ℕ) → IsFaithful s.json (ControlMessage.ping ts))
    (pongs : (ts : ℕ) → IsFaithful s.json (ControlMessage.pong ts))
    → All (λ k. (p : Packet) → k.0 tx p ≡ true) ticks
    → All (λ r. (p : Events.Packet) → r.accepts s.out_tx p ≡ true) rounds
    → map (λ m. to_writer tx m.0) from_agent ≡ ping_task s.json tx ticks
    → map (λ r. r.incoming) rounds
      ≡ map WsSession.Incoming.received (seen_as (writer_task from_agent))
    → map (λ m. to_relay_writer s.out_tx m.0) to_agent ≡ (session_loop s st rounds).1
    → map (λ r. r.read) agent_rounds
      ≡ map (λ m. Read.received (read_as m)) (WsSession.writer_task to_agent)
    → let answered = take (taken from_agent) (map (λ k. k.1) ticks) in
      ((session_loop s st rounds).0 ≡ others_only st rounds)
      × (WsSession.writer_task to_agent
          ≡ map (λ ts. Events.Message.text (pongs ts).0) (take (taken to_agent) answered))
      × (connection_loop s.json ctx t agent_rounds ≡ (streams_only t agent_rounds, [], [], none))
pings_answered s ctx st t tx ticks from_agent rounds to_agent agent_rounds pings pongs agent_open
      relay_open on_agent seen on_relay read =
    let times = map (λ k. k.1) ticks in
    let answered = take (taken from_agent) times in
    let f = λ (ts : ℕ). (pings ts).0 in
    let g = λ (ts : ℕ). (pongs ts).0 in
    let pinged =
      on_channel-agent tx f from_agent ticks
        (on_agent ∙ ping_task-open s pings pongs tx ticks agent_open) in
    let went =
      writer_task-agent from_agent
      ∙ ap (take (taken from_agent)) pinged
      ∙ take-map (λ ts. Message.text (f ts)) (taken from_agent) times in
    let arrived =
      seen
      ∙ ap (λ l. map WsSession.Incoming.received (seen_as l)) went
      ∙ seen_as-texts f answered in
    let handled = session_loop-pings s pings pongs st rounds answered relay_open arrived in
    let ponged = on_channel-relay s.out_tx g to_agent answered (on_relay ∙ ap (λ r. r.1) handled) in
    let came =
      writer_task-relay to_agent
      ∙ ap (take (taken to_agent)) ponged
      ∙ take-map (λ ts. Events.Message.text (g ts)) (taken to_agent) answered in
    let back =
      read
      ∙ ap (map (λ m. Read.received (read_as m))) came
      ∙ read_as-texts g (take (taken to_agent) answered) in
    (
      ap (λ r. r.0) handled,
      came,
      connection_loop-pongs s pings pongs ctx t agent_rounds (take (taken to_agent) answered) back,
    )
