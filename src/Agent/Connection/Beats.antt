-- ===== src/Agent/Connection/Beats.antt =====
-- The tasks that pings and pongs pass, one by one: the ping and writer tasks and the loop of
-- crates/agent/src/relay_client.rs, and the session and writer task of
-- crates/relay-server/src/ws_session.rs.
use tunely.Prelude.{
  ℕ, zero, suc, ◌≡◌, refl, ap, ◌∙◌, Bool, true, false, none, some, List, [], ◌∷◌, ◌++◌, map, take,
  All,
}
use tunely.Prelude.Bytes.{Text}
use tunely.Protocol.Message.{ControlMessage}
use tunely.Agent.Events.{Message, Sender, Sent, Accepts, Packet, to_relay, send_control}
use tunely.Agent.Handshake.{IsFaithful}
use tunely.Agent.RelayClient.{
  RuntimeCtx, Tables, Spawned, turn, handle_text_message, handle_control,
}
use tunely.Agent.WsStream.{apply_ops}
use tunely.Agent.Connection.{Read, Round, round, Returned, connection_loop, ping_task, writer_task}
use tunely.Relay.Events
use tunely.Relay.State.{AppState}
use tunely.Relay.State.Steps.{run}
use tunely.Relay.WsSession
use tunely.Relay.WsSession.{Session, session_loop}

-- How many messages the socket takes before it refuses one.
unfoldable pub taken {ℓ} : {A : Type ℓ} → List (A × Bool) → ℕ
taken [] = 0
taken ((m, true) ∷ messages) = suc (taken messages)
taken ((m, false) ∷ messages) = 0

pub take-map {ℓ κ} :
    {A : Type ℓ} {B : Type κ} (f : A → B) (n : ℕ) (xs : List A)
    → take n (map f xs) ≡ map f (take n xs)
take-map f zero xs = refl
take-map f (suc n) [] = refl
take-map f (suc n) (x ∷ xs) = ap (◌∷◌ (f x)) (take-map f n xs)

pub writer_task-agent :
    (messages : List (Message × Bool))
    → writer_task messages ≡ take (taken messages) (map (λ m. m.0) messages)
unfolding writer_task taken
writer_task-agent [] = refl
writer_task-agent ((m, true) ∷ messages) = ap (◌∷◌ m) (writer_task-agent messages)
writer_task-agent ((m, false) ∷ messages) = refl

pub writer_task-relay :
    (messages : List (Events.Message × Bool))
    → WsSession.writer_task messages ≡ take (taken messages) (map (λ m. m.0) messages)
unfolding WsSession.writer_task taken
writer_task-relay [] = refl
writer_task-relay ((m, true) ∷ messages) = ap (◌∷◌ m) (writer_task-relay messages)
writer_task-relay ((m, false) ∷ messages) = refl

-- What is left of the tables when only other tasks act.
unfoldable pub others_only : AppState → List WsSession.Round → AppState
others_only st [] = st
others_only st (r ∷ rounds) = others_only (run st r.others) rounds

unfoldable pub streams_only : Tables → List Round → Tables
streams_only t [] = t
streams_only t (r ∷ rounds) =
    streams_only (record t { ws_sessions = apply_ops t.ws_sessions r.others }) rounds

pub cons-injective {ℓ} :
    {A : Type ℓ} {x y : A} {xs ys : List A} → x ∷ xs ≡ y ∷ ys → (x ≡ y) × (xs ≡ ys)
cons-injective e = (cc, cc)

-- Pings and pongs survive the JSON.
module _ (s : Session) (pings : (ts : ℕ) → IsFaithful s.json (ControlMessage.ping ts))
    (pongs : (ts : ℕ) → IsFaithful s.json (ControlMessage.pong ts)) where
  abbrev pub ping_text : ℕ → Text
  ping_text ts = (pings ts).0

  abbrev pub pong_text : ℕ → Text
  pong_text ts = (pongs ts).0

  pub ping_task-open :
      (tx : Sender) (ticks : List (Accepts × ℕ))
      → All (λ k. (p : Packet) → k.0 tx p ≡ true) ticks
      → ping_task s.json tx ticks ≡ map (λ k. (tx, to_relay (Message.text (ping_text k.1)))) ticks
  unfolding ping_task send_control
  ping_task-open tx [] open_there = refl
  ping_task-open tx ((accepts, ts) ∷ ticks) open_there =
      let rest = ping_task-open tx ticks open_there.1 in
      rw
        (
          (pings ts).1,
          open_there.0 (to_relay (Message.text (ping_text ts))),
          rest,
          ping_task,
          send_control,
        )
        refl

  turn-ping :
      (accepts : Events.Accepts) (st : AppState) (ts : ℕ)
      → ((p : Events.Packet) → accepts s.out_tx p ≡ true)
      → WsSession.turn s accepts st
          (WsSession.Incoming.received (Events.Message.text (ping_text ts)))
        ≡ (st, (s.out_tx, Events.message (Events.Message.text (pong_text ts))) ∷ [], true)
  unfolding WsSession.turn WsSession.handle_text_message WsSession.handle_control
      Events.send_control
  turn-ping accepts st ts open_there =
      let (text, writes, reads) = pings ts in
      let (back, writes_back, reads_back) = pongs ts in
      rw
        (
          reads,
          writes_back,
          open_there (Events.message (Events.Message.text (pong_text ts))),
          WsSession.turn,
          WsSession.handle_text_message,
          WsSession.handle_control,
          Events.send_control,
        )
        refl

  pub session_loop-pings :
      (st : AppState) (rounds : List WsSession.Round) (times : List ℕ)
      → All (λ r. (p : Events.Packet) → r.accepts s.out_tx p ≡ true) rounds
      → map (λ r. r.incoming) rounds
        ≡ map (λ ts. WsSession.Incoming.received (Events.Message.text (ping_text ts))) times
      → session_loop s st rounds ≡ (
        others_only st rounds,
        map (λ ts. (s.out_tx, Events.message (Events.Message.text (pong_text ts)))) times,
      )
  unfolding session_loop others_only
  session_loop-pings st [] [] open_there reads = refl
  session_loop-pings st [] (ts ∷ times) open_there reads = cc
  session_loop-pings st (r ∷ rounds) [] open_there reads = cc
  session_loop-pings st (r ∷ rounds) (ts ∷ times) open_there reads =
      let (first, more) = cons-injective reads in
      let rest = session_loop-pings (run st r.others) rounds times open_there.1 more in
      rw (first, turn-ping r.accepts (run st r.others) ts open_there.0, rest, session_loop) refl

  round-pong :
      (ctx : RuntimeCtx) (t : Tables) (r : Round) (ts : ℕ)
      → r.read ≡ Read.received (Message.text (pong_text ts))
      → round s.json ctx t r r.read ≡ (t, [], [], none)
  unfolding round turn handle_text_message handle_control
  round-pong ctx t r ts e =
      let (text, writes, read) = pongs ts in
      rw (e, read, round, turn, handle_text_message, handle_control) refl

  connection_loop-quiet :
      (ctx : RuntimeCtx) (t t₂ : Tables) (r : Round) (rounds : List Round)
      → round s.json ctx (record t { ws_sessions = apply_ops t.ws_sessions r.others }) r r.read
        ≡ (t₂, [], [], none)
      → connection_loop s.json ctx t (r ∷ rounds) ≡ connection_loop s.json ctx t₂ rounds
  unfolding connection_loop
  connection_loop-quiet ctx t t₂ r rounds e =
      ap
        (λ (o : Tables × List Sent × List Spawned × Returned).
          let rest = connection_loop s.json ctx o.0 rounds in
          elim o.3 as (λ _. Tables × List Sent × List Spawned × Returned) [
            | none ↦ (rest.0, o.1 ++ rest.1, o.2 ++ rest.2, rest.3)
            | some how ↦ (o.0, o.1, o.2, some how)
          ])
        e

  pub connection_loop-pongs :
      (ctx : RuntimeCtx) (t : Tables) (rounds : List Round) (times : List ℕ)
      → map (λ r. r.read) rounds ≡ map (λ ts. Read.received (Message.text (pong_text ts))) times
      → connection_loop s.json ctx t rounds ≡ (streams_only t rounds, [], [], none)
  unfolding connection_loop streams_only
  connection_loop-pongs ctx t [] times reads = refl
  connection_loop-pongs ctx t (r ∷ rounds) [] reads = cc
  connection_loop-pongs ctx t (r ∷ rounds) (ts ∷ times) reads =
      let (first, more) = cons-injective reads in
      let t₁ = record t { ws_sessions = apply_ops t.ws_sessions r.others } in
      let rest = connection_loop-pongs ctx t₁ rounds times more in
      connection_loop-quiet ctx t t₁ r rounds (round-pong ctx t₁ r ts first) ∙ rest
