-- ===== src/Relay/State/Disconnect.antt =====
-- crates/relay-server/src/state.rs: what `remove_agent_if` does when an agent's session ends.
use tunely.Prelude.{
  ◌≡◌, ◌≢◌, refl, ap, inl, inr, true, false, not, List, [], ◌∷◌, ◌++◌, arith, none, some,
  Bool-cases, Option-cases, is_some, filter,
}
use tunely.Prelude.Bytes.{Text, text_eq, text_eq_iff, text_eq_refl, codes}
use tunely.Prelude.Map.{Map, IsMap, lookup, remove, contains_key, remove_absent}
use tunely.Protocol.Message.{Uuid}
use tunely.Relay.Events.{Sent, Accepts, send, connect_ack, ws_event, WsRelayEvent}
use tunely.Relay.State.{
  AppState, AgentHandle, WsPending, WsStreamHandle, fail_ws_pending, close_ws, for_each, ids_of,
  fail_ws_pending_for_tunnel, close_ws_for_tunnel, owns, remove_agent_if,
}
use tunely.Relay.State.Valid.{IsValid}

-- Taking the entries of a tunnel out of a table one by one, and telling each.
module _ {ℓ} {V : Type ℓ} (tell : V → List Sent) where
  unfoldable drain : Map V → List Uuid → Map V × List Sent
  drain m [] = (m, [])
  drain m (id ∷ ids) = elim (lookup id m) [
    | none ↦ drain m ids
    | some v ↦ let (m', out) = drain (remove id m) ids in (m', tell v ++ out)
  ]

-- The entries of a tunnel, and the others.
abbrev pub of_tunnel {ℓ} : {V : Type ℓ} → (V → Text) → Text → Map V → Map V
of_tunnel tunnel_of t = filter (λ e. text_eq (tunnel_of e.1) t)

abbrev pub of_others {ℓ} : {V : Type ℓ} → (V → Text) → Text → Map V → Map V
of_others tunnel_of t = filter (λ e. not (text_eq (tunnel_of e.1) t))

-- What is sent when each entry of a table is told once, in the table's order.
abbrev pub told {ℓ} : {V : Type ℓ} → (V → List Sent) → Map V → List Sent
told tell [] = []
told tell ((k, v) ∷ m) = tell v ++ told tell m

pub none_of_absent {ℓ} :
    {V : Type ℓ} (k : Text) (m : Map V) → contains_key k m ≡ false → lookup k m ≡ none
none_of_absent k m h = elim (Option-cases (lookup k m)) [
  | inl e ↦ e
  | inr (v, e) ↦ cc (h, ap is_some e)
]

abbrev Apart : Uuid → List Uuid → Type 0
Apart k [] = Unit {0}
Apart k (i ∷ ids) = (text_eq k i ≡ false) × Apart k ids

module _ {ℓ} {V : Type ℓ} (tunnel_of : V → Text) (t : Text) where
  ids_of-Apart : (k : Uuid) (m : Map V) → lookup k m ≡ none → Apart k (ids_of tunnel_of t m)
  unfolding lookup ids_of
  ids_of-Apart k [] h = tt
  ids_of-Apart k ((j, v) ∷ m) h = elim (Bool-cases (text_eq (tunnel_of v) t)) [
    | inl hit ↦
        rw hit (ground (arith, text_eq_iff j k, text_eq_iff k j), ids_of-Apart k m (ground arith))
    | inr miss ↦ rw miss (ids_of-Apart k m (ground arith))
  ]

module _ {ℓ} {V : Type ℓ} (tell : V → List Sent) where
  drain-skip :
      (ids : List Uuid) (k : Uuid) (v : V) (m : Map V)
      → Apart k ids
      → drain tell ((k, v) ∷ m) ids ≡ ((k, v) ∷ (drain tell m ids).0, (drain tell m ids).1)
  unfolding drain lookup remove
  drain-skip [] k v m h = refl
  drain-skip (i ∷ ids) k v m h =
      ground (arith, drain-skip ids k v m h.1, drain-skip ids k v (remove i m) h.1)

  module _ (tunnel_of : V → Text) (t : Text) where
    drain-ids_of :
        (m : Map V)
        → IsMap m
        → drain tell m (ids_of tunnel_of t m)
          ≡ (of_others tunnel_of t m, told tell (of_tunnel tunnel_of t m))
    unfolding drain ids_of lookup remove
    drain-ids_of [] h = refl
    drain-ids_of ((k, v) ∷ m) h = elim (Bool-cases (text_eq (tunnel_of v) t)) [
      | inl hit ↦ ground (
        arith,
        hit,
        text_eq_refl k,
        remove_absent k m (none_of_absent k m h.0),
        drain-ids_of m h.1,
      )
      | inr miss ↦ ground (
        arith,
        miss,
        drain-skip (ids_of tunnel_of t m) k v m
            (ids_of-Apart tunnel_of t k m (none_of_absent k m h.0)),
        drain-ids_of m h.1,
      )
    ]

-- The two loops take entries out of their tables as `drain` does.
abbrev pub failure : Accepts → WsPending → List Sent
failure ok p = send ok p.tx (
    connect_ack (record {
      accepted = false;
      selected_subprotocol = none;
      reason = some (codes "agent disconnected");
    }))

abbrev pub closing : Accepts → WsStreamHandle → List Sent
closing ok h =
    send ok h.sender (ws_event (WsRelayEvent.close (some 1011) (some (codes "agent disconnected"))))

fail-drain :
    (ok : Accepts) (ids : List Uuid) (st : AppState)
    → for_each (fail_ws_pending ok (codes "agent disconnected")) st ids ≡ (
      record st { ws_pending = (drain (failure ok) st.ws_pending ids).0 },
      (drain (failure ok) st.ws_pending ids).1,
    )
unfolding for_each fail_ws_pending drain
fail-drain ok [] st = refl
fail-drain ok (id ∷ ids) st = elim (Option-cases (lookup id st.ws_pending)) [
  | inl e ↦ rw (e, fail_ws_pending, drain) (fail-drain ok ids st)
  | inr (p, e) ↦
      rw (e, fail_ws_pending, drain)
        (rw (fail-drain ok ids (record st { ws_pending = remove id st.ws_pending })))
]

close-drain :
    (ok : Accepts) (ids : List Uuid) (st : AppState)
    → for_each (close_ws ok (some 1011) (codes "agent disconnected")) st ids ≡ (
      record st { ws_streams = (drain (closing ok) st.ws_streams ids).0 },
      (drain (closing ok) st.ws_streams ids).1,
    )
unfolding for_each close_ws drain
close-drain ok [] st = refl
close-drain ok (id ∷ ids) st = elim (Option-cases (lookup id st.ws_streams)) [
  | inl e ↦ rw (e, close_ws, drain) (close-drain ok ids st)
  | inr (h, e) ↦
      rw (e, close_ws, drain)
        (rw (close-drain ok ids (record st { ws_streams = remove id st.ws_streams })))
]

-- When the session that holds a tunnel ends, exactly the tunnel's entries leave the tables: its
-- agent, its pending connects and its streams. Each pending connect is refused once and each
-- stream is closed once with code 1011, in the tables' order; the requests in flight stay, and
-- none of them is told.
pub remove_agent_if_owner :
    (tokens : List Text) (ok : Accepts) (st : AppState) (t : Text) (c : Uuid)
    → IsValid tokens st
    → owns st t c ≡ true
    → remove_agent_if ok st t c ≡ (
      record st {
        agents = remove t st.agents;
        ws_pending = of_others (λ p. p.tunnel_id) t st.ws_pending;
        ws_streams = of_others (λ h. h.tunnel_id) t st.ws_streams;
      },
      told (failure ok) (of_tunnel (λ p. p.tunnel_id) t st.ws_pending)
          ++ told (closing ok) (of_tunnel (λ h. h.tunnel_id) t st.ws_streams),
    )
unfolding remove_agent_if fail_ws_pending_for_tunnel close_ws_for_tunnel
remove_agent_if_owner tokens ok st t c v mine =
    let ids = ids_of (λ (p : WsPending). p.tunnel_id) t st.ws_pending in
    let st₁ = record st { agents = remove t st.agents } in
    rw (
      mine,
      fail-drain ok ids st₁,
      drain-ids_of (failure ok) (λ p. p.tunnel_id) t st.ws_pending v.pending_map,
      close-drain ok (ids_of (λ (h : WsStreamHandle). h.tunnel_id) t st.ws_streams) _,
      drain-ids_of (closing ok) (λ h. h.tunnel_id) t st.ws_streams v.streams_map,
    )

-- The end of a session that does not hold the tunnel, because the tunnel has no agent or one of
-- another connection, changes nothing and sends nothing.
pub remove_agent_if_stale :
    (ok : Accepts) (st : AppState) (t : Text) (c : Uuid)
    → ((h : AgentHandle) → lookup t st.agents ≡ some h → h.connection_id ≢ c)
    → remove_agent_if ok st t c ≡ (st, [])
unfolding remove_agent_if owns
remove_agent_if_stale ok st t c other = elim (Option-cases (lookup t st.agents)) [
  | inl e ↦ ground arith
  | inr (h, e) ↦ ground (arith, other h e, text_eq_iff h.connection_id c)
]
