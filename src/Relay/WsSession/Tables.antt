-- ===== src/Relay/WsSession/Tables.antt =====
-- crates/relay-server/src/ws_session.rs: what a session does to the shared tables of src/state.rs, as
-- operations and as functions from identifiers to entries.
use tunely.Prelude.{
  ℕ, ◌≡◌, refl, sym, ap, ◌∙◌, Bool, true, false, List, [], ◌∷◌, ◌++◌, if◌then◌else◌, Bool-cases,
  inl, inr,
}
use tunely.Prelude.Bytes.{Text}
use tunely.Relay.Events.{Message, Accepts}
use tunely.Relay.State.{AppState, new}
use tunely.Relay.State.Steps.{Op, step, run}
use tunely.Relay.State.View.{view, no_entries, replay}
use tunely.Relay.State.Refinement.{run-new-replay}
use tunely.Relay.WsSession.{Session, Incoming, Round, turn, session_loop}
use tunely.Relay.WsSession.Dispatch.{turn-run, turn_ops, under}

-- The loop goes on but after a close frame and an error.
unfoldable goes_on : Incoming → Bool
goes_on (Incoming.received (Message.close frame)) = false
goes_on Incoming.failed = false
goes_on incoming = true

turn-goes_on :
    (s : Session) (accepts : Accepts) (st : AppState) (incoming : Incoming)
    → (turn s accepts st incoming).2 ≡ goes_on incoming
unfolding turn goes_on
turn-goes_on s accepts st (Incoming.received (Message.text t)) = refl
turn-goes_on s accepts st (Incoming.received (Message.binary b)) = refl
turn-goes_on s accepts st (Incoming.received (Message.ping b)) = refl
turn-goes_on s accepts st (Incoming.received (Message.pong b)) = refl
turn-goes_on s accepts st (Incoming.received (Message.close f)) = refl
turn-goes_on s accepts st Incoming.failed = refl

-- The operations of a session and of the tasks beside it, in order.
unfoldable pub session_ops : Session → List Round → List (Accepts × Op)
unfolding goes_on
session_ops s [] = []
session_ops s (r ∷ rounds) =
    let rest = session_ops s rounds in
    r.others
    ++ (under r.accepts (turn_ops s r.incoming) ++ (if goes_on r.incoming then rest else []))

run-append : (st : AppState) (xs ys : List (Accepts × Op)) → run st (xs ++ ys) ≡ run (run st xs) ys
unfolding run
run-append st [] ys = refl
run-append st ((ok, op) ∷ xs) ys = run-append (step ok st op).0 xs ys

session_loop-run :
    (s : Session) (st : AppState) (rounds : List Round)
    → (session_loop s st rounds).0 ≡ run st (session_ops s rounds)
unfolding session_loop session_ops run
session_loop-run s st [] = refl
session_loop-run s st (r ∷ rounds) =
    let before = run st r.others in
    let after = (turn s r.accepts before r.incoming).0 in
    let turned = turn-run s r.accepts before r.incoming in
    let parts : (tail : List (Accepts × Op))
        → run st (r.others ++ (under r.accepts (turn_ops s r.incoming) ++ tail)) ≡ run after tail =
      λ tail.
        run-append st r.others (under r.accepts (turn_ops s r.incoming) ++ tail)
        ∙ run-append before (under r.accepts (turn_ops s r.incoming)) tail
        ∙ ap (λ x. run x tail) (sym turned) in
    elim (Bool-cases (goes_on r.incoming)) [
      | inl more ↦
          let flag = turn-goes_on s r.accepts before r.incoming ∙ more in
          rw (flag, more) (session_loop-run s after rounds ∙ sym (parts (session_ops s rounds)))
      | inr over ↦
          let flag = turn-goes_on s r.accepts before r.incoming ∙ over in
          rw (flag, over) (sym (parts []))
    ]

-- A session acts on the shared tables only through their operations: after any history of the relay,
-- the tables that a session's loop leaves behind read as that history followed by the operations that
-- its messages stand for, each between those of the other tasks, on functions from identifiers to
-- entries; nothing after a close frame or an error counts.
pub session_loop-view :
    (tokens : List Text) (secs : ℕ) (history : List (Accepts × Op)) (s : Session)
    (rounds : List Round)
    → view (session_loop s (run (new tokens secs) history) rounds).0
      ≡ replay no_entries (history ++ session_ops s rounds)
session_loop-view tokens secs history s rounds =
    ap view (
      session_loop-run s (run (new tokens secs) history) rounds
      ∙ sym (run-append (new tokens secs) history (session_ops s rounds)))
    ∙ run-new-replay tokens secs (history ++ session_ops s rounds)
