-- ===== src/Relay/WsSession/Ownership.antt =====
-- crates/relay-server/src/ws_session.rs: a session holds its tunnel from registration to removal.
use tunely.Prelude.{
  ℕ, ◌≡◌, ◌≢◌, ap, ◌∙◌, inl, inr, true, false, List, [], ◌∷◌, arith, Option, none, some, All,
  Bool-cases, Option-cases, if◌then◌else◌,
}
use tunely.Prelude.Bytes.{Bytes, Text, text_eq, text_eq_iff}
use tunely.Prelude.Map.{lookup, lookup-insert, lookup-remove, remove, lookup-insert_self}
use tunely.Protocol.Message.{Uuid, ControlMessage}
use tunely.Protocol.Frame.{ChunkHeader, StreamKind, Result-cases, decode_chunk_header}
use tunely.Relay.Events.{Sent, Accepts, Message}
use tunely.Relay.State.{
  AppState, AgentHandle, fail_ws_pending, close_ws, for_each, fail_ws_pending_for_tunnel,
  close_ws_for_tunnel, owns,
}
use tunely.Relay.State
use tunely.Relay.State.Steps.{Op, step, run}
use tunely.Relay.State.Requests.{for_each-keeps}
use tunely.Relay.WsSession.Register.{Registered, register_outcome}
use tunely.Relay.WsSession.{
  Session, Round, Incoming, register, turn, session_loop, handle_control, handle_text_message,
  handle_chunk, handle_binary_message, handle_socket, read_register_message, FirstRead,
}

fail_ws_pending-agents :
    (ok : Accepts) (reason : Text) (st : AppState) (id : Uuid)
    → (fail_ws_pending ok reason st id).0.agents ≡ st.agents
unfolding fail_ws_pending
fail_ws_pending-agents ok reason st id = ground arith

close_ws-agents :
    (ok : Accepts) (code : Option ℕ) (reason : Text) (st : AppState) (id : Uuid)
    → (close_ws ok code reason st id).0.agents ≡ st.agents
unfolding close_ws
close_ws-agents ok code reason st id = ground arith

remove_agent_if-agents :
    (ok : Accepts) (st : AppState) (t : Text) (c : Uuid)
    → (State.remove_agent_if ok st t c).0.agents
      ≡ (if owns st t c then remove t st.agents else st.agents)
unfolding State.remove_agent_if fail_ws_pending_for_tunnel close_ws_for_tunnel
remove_agent_if-agents ok st t c = elim (Bool-cases (owns st t c)) [
  | inl mine ↦ rw mine (
      for_each-keeps (λ s. s.agents) _ (close_ws-agents ok _ _) _ _
      ∙ for_each-keeps (λ s. s.agents) _ (fail_ws_pending-agents ok _) _ _)
  | inr other ↦ rw other
]

-- An operation that does not end the connection `c`.
abbrev pub Spares : Uuid → Op → Type 0
Spares c (Op.remove_agent_if t d) = d ≢ c
Spares c op = Unit {0}

-- The agent of a tunnel is that of the connection `c`.
abbrev pub Holds : AppState → Text → AgentHandle → Type 0
Holds st t h = lookup t st.agents ≡ some h

step-Holds :
    (ok : Accepts) (st : AppState) (t : Text) (h : AgentHandle) (op : Op)
    → Spares h.connection_id op
    → Holds st t h
    → Holds (step ok st op).0 t h
unfolding step State.insert_agent_if_absent State.add_inflight State.remove_inflight
    State.notify_start State.notify_body State.notify_end State.notify_error State.add_ws_pending
    State.remove_ws_pending State.notify_ws_connect_ack State.add_ws_stream State.remove_ws_stream
    State.notify_ws_frame State.notify_ws_close owns
step-Holds ok st t h (Op.insert_agent_if_absent u k) spares holds =
    ground (arith, lookup-insert u t k st.agents, text_eq_iff u t)
step-Holds ok st t h (Op.remove_agent_if u d) spares holds = ground (
  arith,
  remove_agent_if-agents ok st u d,
  lookup-remove u t st.agents,
  text_eq_iff u t,
  text_eq_iff h.connection_id d,
)
step-Holds ok st t h op spares holds = ground arith

run-Holds :
    (t : Text) (h : AgentHandle) (ops : List (Accepts × Op)) (st : AppState)
    → All (λ e. Spares h.connection_id e.1) ops
    → Holds st t h
    → Holds (run st ops) t h
unfolding run
run-Holds t h [] st spares holds = holds
run-Holds t h ((ok, op) ∷ ops) st spares holds =
    run-Holds t h ops (step ok st op).0 spares.1 (step-Holds ok st t h op spares.0 holds)

-- No message of an agent changes the table of agents.
handle_control-agents :
    (s : Session) (ok : Accepts) (st : AppState) (msg : ControlMessage)
    → (handle_control s.json ok st s.out_tx msg).0.agents ≡ st.agents
unfolding handle_control State.notify_start State.notify_end State.notify_error
    State.notify_ws_connect_ack State.notify_ws_close
handle_control-agents s ok st (ControlMessage.error (some r) c m) = ground arith
handle_control-agents s ok st msg = ground arith

handle_chunk-agents :
    (ok : Accepts) (st : AppState) (header : ChunkHeader) (kind : StreamKind) (payload : Bytes)
    → (handle_chunk ok st header kind payload).0.agents ≡ st.agents
unfolding handle_chunk State.notify_body State.notify_end State.notify_ws_frame
handle_chunk-agents ok st header StreamKind.response_body payload = ground arith
handle_chunk-agents ok st header kind payload = ground arith

turn-agents :
    (s : Session) (ok : Accepts) (st : AppState) (incoming : Incoming)
    → (turn s ok st incoming).0.agents ≡ st.agents
unfolding turn handle_text_message handle_binary_message
turn-agents s ok st (Incoming.received (Message.text text)) =
    elim (Option-cases (s.json.from_str text)) [
      | inl e ↦ rw (e, turn, handle_text_message)
      | inr (msg, e) ↦ rw (e, turn, handle_text_message) (handle_control-agents s ok st msg)
    ]
turn-agents s ok st (Incoming.received (Message.binary bytes)) =
    elim (Result-cases (decode_chunk_header bytes)) [
      | inl ((header, payload), e) ↦
          rw (e, turn, handle_binary_message) (handle_chunk-agents ok st header header.kind payload)
      | inr (x, e) ↦ rw (e, turn, handle_binary_message)
    ]
turn-agents s ok st incoming = ground arith

-- The other tasks of every round spare the connection.
abbrev pub RoundsSpare : Uuid → List Round → Type 0
RoundsSpare c = All (λ r. All (λ e. Spares c e.1) r.others)

session_loop-Holds :
    (s : Session) (t : Text) (h : AgentHandle) (rounds : List Round) (st : AppState)
    → RoundsSpare h.connection_id rounds
    → Holds st t h
    → Holds (session_loop s st rounds).0 t h
unfolding session_loop
session_loop-Holds s t h [] st spares holds = holds
session_loop-Holds s t h (r ∷ rs) st spares holds =
    let before = run-Holds t h r.others st spares.0 holds in
    let after = turn-agents s r.accepts (run st r.others) r.incoming in
    elim (Bool-cases (turn s r.accepts (run st r.others) r.incoming).2) [
      | inl more ↦
          rw (more, session_loop)
            (session_loop-Holds s t h rs (turn s r.accepts (run st r.others) r.incoming).0 spares.1
              (rw after before))
      | inr done ↦ rw (done, session_loop) (rw after before)
    ]

-- The agent that registration entered.
register-Holds :
    (s : Session) (ok : Accepts) (st st' : AppState) (msg : ControlMessage) (out : List Sent)
    (t : Text)
    → register s ok st msg ≡ (st', out, some t)
    → (h : AgentHandle) × (h.connection_id ≡ s.connection_id)
      × (h.sender ≡ s.out_tx)
      × Holds st' t h
unfolding Registered
register-Holds s ok st st' msg out t e = elim (register_outcome s ok st msg) [
  | inl (nobody, _, _) ↦ cc (nobody, e)
  | inr (u, h, taken, connection, sender, tables, _) ↦
      (h, connection, sender, ground (arith, e, taken, tables, lookup-insert_self u h st.agents))
]

owns_holder :
    (st : AppState) (t : Text) (h : AgentHandle) (c : Uuid)
    → h.connection_id ≡ c
    → Holds st t h
    → owns st t c ≡ true
unfolding owns
owns_holder st t h c e holds = rw (holds, owns) ((text_eq_iff h.connection_id c).1 e)

-- From its registration until its own removal a session holds its tunnel: whatever messages it
-- handles and whatever the other tasks do in between, as long as none of them ends its connection,
-- the tunnel's agent is the one that registered, so another agent is refused the name.
pub session_loop_exclusive :
    (s : Session) (ok : Accepts) (st st' : AppState) (msg : ControlMessage) (out : List Sent)
    (t : Text) (rounds : List Round) (others : List (Accepts × Op)) (rival : AgentHandle)
    → register s ok st msg ≡ (st', out, some t)
    → RoundsSpare s.connection_id rounds
    → All (λ e. Spares s.connection_id e.1) others
    → let now = run (session_loop s st' rounds).0 others in
      ((h : AgentHandle) × (h.connection_id ≡ s.connection_id)
        × (h.sender ≡ s.out_tx)
        × (State.get_agent now t ≡ some h))
      × (State.insert_agent_if_absent now t rival ≡ (now, false))
unfolding State.get_agent State.insert_agent_if_absent
session_loop_exclusive s ok st st' msg out t rounds others rival e spares others_spare =
    let (h, connection, sender, holds) = register-Holds s ok st st' msg out t e in
    let still : Holds (run (session_loop s st' rounds).0 others) t h =
      run-Holds t h others _ (rw connection others_spare)
        (session_loop-Holds s t h rounds st' (rw connection spares) holds) in
    ((h, connection, sender, still), rw still)

-- When a session that had registered ends, its tunnel has no agent any more, and every other
-- tunnel has the agent that it had before the removal.
pub handle_socket_releases :
    (s : Session) (ok closing : Accepts) (first : FirstRead) (st st' : AppState)
    (msg : ControlMessage) (out : List Sent) (t : Text) (rounds : List Round)
    (others : List (Accepts × Op)) (k : Text)
    → read_register_message s.json first ≡ some msg
    → register s ok st msg ≡ (st', out, some t)
    → RoundsSpare s.connection_id rounds
    → All (λ e. Spares s.connection_id e.1) others
    → State.get_agent (handle_socket s ok first st rounds others closing).0 k
      ≡ (if text_eq t k then none else State.get_agent (run (session_loop s st' rounds).0 others) k)
unfolding State.get_agent handle_socket
handle_socket_releases s ok closing first st st' msg out t rounds others k r e spares others_spare =
    let (h, connection, sender, holds) = register-Holds s ok st st' msg out t e in
    let still : Holds (run (session_loop s st' rounds).0 others) t h =
      run-Holds t h others _ (rw connection others_spare)
        (session_loop-Holds s t h rounds st' (rw connection spares) holds) in
    let mine : owns (run (session_loop s st' rounds).0 others) t s.connection_id ≡ true =
      owns_holder _ t h s.connection_id connection still in
    let tables : (register s ok st msg).0 ≡ st' = ap (λ x. x.0) e in
    let taken : (register s ok st msg).2 ≡ some t = ap (λ x. x.2) e in
    rw (r, handle_socket)
      (rw (taken, handle_socket)
        (rw (
          tables,
          remove_agent_if-agents closing (run (session_loop s st' rounds).0 others) t
              s.connection_id,
          mine,
          lookup-remove t k,
        )))
