-- ===== src/Relay/WsTunnel/Release.antt =====
-- crates/relay-server/src/ws_tunnel.rs: how the handler of a client's socket ends, and what it leaves
-- in the tables.
use tunely.Prelude.{
  ℕ, ◌≡◌, inl, inr, refl, true, false, none, some, List, [], ◌∷◌, ◌++◌, Bool-cases,
}
use tunely.Prelude.Bytes.{Text}
use tunely.Prelude.Map.{lookup, lookup-remove_self}
use tunely.Protocol.Message.{Uuid}
use tunely.Relay.Events.{Message, WsRelayEvent, Accepts, Packet}
use tunely.Relay.State.{AppState, add_ws_stream, remove_ws_stream, remove_ws_pending}
use tunely.Relay.State.Steps.{Op, run, step}
use tunely.Relay.State.Valid.{IsValid, step-IsValid, run-IsValid}
use tunely.Relay.WsTunnel.{
  Socket, ClientRead, Input, Round, Takes, Phases, read_ack, turn, client_turn, client_frame,
  client_close, send_ws_frame, relay_turn, socket_loop, release, handle_client_socket,
}

-- A round in which the loop must end: the client's side is over or has failed, the client asks for the
-- end, the agent's channel takes no more, or the events are over or ask for the end.
abbrev pub Ends : Accepts → Input → Type 0
Ends accepts (Input.from_client (ClientRead.received (Message.close c))) = Unit {0}
Ends accepts (Input.from_client (ClientRead.received m)) =
    (s : ℕ) (p : Packet) → accepts s p ≡ false
Ends accepts (Input.from_client ClientRead.ended) = Unit {0}
Ends accepts (Input.from_client (ClientRead.read_failed err)) = Unit {0}
Ends accepts (Input.from_relay none) = Unit {0}
Ends accepts (Input.from_relay (some (WsRelayEvent.close code reason))) = Unit {0}
Ends accepts (Input.from_relay (some (WsRelayEvent.frame opcode payload))) = ⊥

turn-Ends :
    (s : Socket) (accepts : Accepts) (takes : Takes) (input : Input)
    → Ends accepts input
    → (turn s accepts takes input).2 ≡ false
unfolding turn client_turn client_close client_frame send_ws_frame relay_turn
turn-Ends s accepts takes (Input.from_client (ClientRead.received (Message.text t))) h =
    rw (h s.agent_sender _) refl
turn-Ends s accepts takes (Input.from_client (ClientRead.received (Message.binary b))) h =
    rw (h s.agent_sender _) refl
turn-Ends s accepts takes (Input.from_client (ClientRead.received (Message.ping b))) h =
    rw (h s.agent_sender _) refl
turn-Ends s accepts takes (Input.from_client (ClientRead.received (Message.pong b))) h =
    rw (h s.agent_sender _) refl
turn-Ends s accepts takes (Input.from_client (ClientRead.received (Message.close none))) h = refl
turn-Ends s accepts takes (Input.from_client (ClientRead.received (Message.close (some c)))) h =
    refl
turn-Ends s accepts takes (Input.from_client ClientRead.ended) h = refl
turn-Ends s accepts takes (Input.from_client (ClientRead.read_failed err)) h = refl
turn-Ends s accepts takes (Input.from_relay none) h = refl
turn-Ends s accepts takes (Input.from_relay (some (WsRelayEvent.close code reason))) h = refl
turn-Ends s accepts takes (Input.from_relay (some (WsRelayEvent.frame opcode payload))) h = absurd h

socket_loop_terminates :
    (s : Socket) (st : AppState) (before after : List Round) (r : Round)
    → Ends r.accepts r.input
    → (socket_loop s st (before ++ (r ∷ after))).3 ≡ true
unfolding socket_loop
socket_loop_terminates s st [] after r h = rw (turn-Ends s r.accepts r.takes r.input h) refl
socket_loop_terminates s st (b ∷ before) after r h =
    elim (Bool-cases (turn s b.accepts b.takes b.input).2) [
      | inl goes_on ↦ rw goes_on (socket_loop_terminates s (run st b.others) before after r h)
      | inr stops ↦ rw stops refl
    ]

-- The tables are valid, and the stream is in none of them.
abbrev Released : List Text → Uuid → AppState → Type 0
Released tokens id st =
    IsValid tokens st × (lookup id st.ws_streams ≡ none) × (lookup id st.ws_pending ≡ none)

module _ {tokens : List Text} where
  socket_loop-IsValid :
      (s : Socket) (st : AppState) (rs : List Round)
      → IsValid tokens st
      → IsValid tokens (socket_loop s st rs).0
  unfolding socket_loop
  socket_loop-IsValid s st [] v = v
  socket_loop-IsValid s st (r ∷ rs) v =
      let v' = run-IsValid r.others st v in
      elim (Bool-cases (turn s r.accepts r.takes r.input).2) [
        | inl goes_on ↦ rw goes_on (socket_loop-IsValid s (run st r.others) rs v')
        | inr stops ↦ rw stops v'
      ]

  release-Released :
      (id : Uuid) (st : AppState) → IsValid tokens st → Released tokens id (release st id)
  unfolding release remove_ws_stream remove_ws_pending step
  release-Released id st v =
      let ok : Accepts = λ s p. true in
      (
        step-IsValid ok (remove_ws_stream st id) (Op.remove_ws_pending id)
            (step-IsValid ok st (Op.remove_ws_stream id) v),
        lookup-remove_self id st.ws_streams,
        lookup-remove_self id st.ws_pending,
      )

-- The handler of a client's socket returns, whether the agent accepted the stream or not, as soon as
-- one round ends the loop: the client closes, goes or fails, the channel to the agent is closed, or
-- the events end or ask for the end. Then the stream is in neither table of streams, and the tables
-- have at most one entry for a key, if they had so at the start, whatever the other tasks did.
pub handle_client_socket_returns :
    (tokens : List Text) (s : Socket) (st : AppState) (p : Phases) (before after : List Round)
    (r : Round)
    → IsValid tokens st
    → p.rounds ≡ before ++ (r ∷ after)
    → Ends r.accepts r.input
    → let result = handle_client_socket s st p in
      (result.3 ≡ true)
      × IsValid tokens result.0
      × (lookup s.stream_id result.0.ws_streams ≡ none)
      × (lookup s.stream_id result.0.ws_pending ≡ none)
unfolding handle_client_socket step
handle_client_socket_returns tokens s st p before after r v rounds ends =
    let ok : Accepts = λ s p. true in
    let st₁ = run (add_ws_stream st s.stream_id s.tunnel_id s.event_tx) p.waiting in
    let v₁ : IsValid tokens st₁ =
      run-IsValid p.waiting _
        (step-IsValid ok st (Op.add_ws_stream s.stream_id s.tunnel_id s.event_tx) v) in
    let over : (socket_loop s st₁ p.rounds).3 ≡ true =
      rw rounds (socket_loop_terminates s st₁ before after r ends) in
    elim (Bool-cases (read_ack p.ack).accepted) [
      | inl accepted ↦
          let (valid, stream, pending) =
            release-Released s.stream_id _
              (run-IsValid p.closing _ (socket_loop-IsValid s st₁ p.rounds v₁)) in
          rw (accepted, over) (refl, valid, stream, pending)
      | inr refused ↦
          let (valid, stream, pending) =
            release-Released s.stream_id _ (run-IsValid p.closing st₁ v₁) in
          rw refused (refl, valid, stream, pending)
    ]
