-- ===== src/Relay/WsTunnel/Disconnect.antt =====
-- crates/relay-server/src/state.rs and src/ws_tunnel.rs: what the end of an agent's session does to the
-- sockets of its tunnel.
use mathlib.Core.List.{Mem, mem-cons_self, mem-append_left, mem-append_right}
use tunely.Prelude.{◌≡◌, refl, true, false, none, some, List, [], ◌∷◌, arith, Bool-cases, inl, inr}
use tunely.Prelude.Bytes.{Text, codes, text_eq, text_eq_iff}
use tunely.Prelude.Map.{Map, IsMap, lookup}
use tunely.Protocol.Message.{Uuid}
use tunely.Relay.Events.{Message, WsRelayEvent, Accepts, Sent, ws_event}
use tunely.Relay.State.{AppState, WsStreamHandle, owns, remove_agent_if}
use tunely.Relay.State.Valid.{IsValid}
use tunely.Relay.State.Disconnect.{
  of_tunnel, of_others, told, closing, none_of_absent, remove_agent_if_owner,
}
use tunely.Relay.WsTunnel.{Takes, put, relay_turn}

abbrev tunnel_of : WsStreamHandle → Text
tunnel_of h = h.tunnel_id

lookup-of_others_absent :
    (t : Text) (id : Uuid) (m : Map WsStreamHandle)
    → lookup id m ≡ none
    → lookup id (of_others tunnel_of t m) ≡ none
unfolding lookup
lookup-of_others_absent t id [] e = refl
lookup-of_others_absent t id ((k, h) ∷ m) e = ground (arith, lookup-of_others_absent t id m)

lookup-of_others :
    (t : Text) (id : Uuid) (handle : WsStreamHandle) (m : Map WsStreamHandle)
    → IsMap m
    → lookup id m ≡ some handle
    → handle.tunnel_id ≡ t
    → lookup id (of_others tunnel_of t m) ≡ none
unfolding lookup
lookup-of_others t id handle [] v e same = refl
lookup-of_others t id handle ((k, h) ∷ m) v e same = elim (Bool-cases (text_eq k id)) [
  | inl here ↦
      let key : k ≡ id = (text_eq_iff k id).0 here in
      let absent : lookup id m ≡ none = rw (← key) (none_of_absent k m v.0) in
      ground (arith, lookup-of_others_absent t id m absent, text_eq_iff h.tunnel_id t)
  | inr other ↦ ground (arith, lookup-of_others t id handle m v.1, text_eq_iff h.tunnel_id t)
]

told-Mem :
    (ok : Accepts) (t : Text) (id : Uuid) (handle : WsStreamHandle) (x : Sent)
    (m : Map WsStreamHandle)
    → lookup id m ≡ some handle
    → handle.tunnel_id ≡ t
    → closing ok handle ≡ x ∷ []
    → Mem x (told (closing ok) (of_tunnel tunnel_of t m))
unfolding lookup
told-Mem ok t id handle x [] e same sends = absurd (cc e)
told-Mem ok t id handle x ((k, h) ∷ m) e same sends = elim (Bool-cases (text_eq k id)) [
  | inl here ↦
      let found : h ≡ handle = ground arith in
      let hit : text_eq h.tunnel_id t ≡ true = (text_eq_iff h.tunnel_id t).1 (rw found same) in
      let first : Mem x (closing ok h) = rw (found, sends) mem-cons_self in
      rw hit (mem-append_left (told (closing ok) (of_tunnel tunnel_of t m)) first)
  | inr other ↦
      let later = told-Mem ok t id handle x m (rw other at e) same sends in
      elim (Bool-cases (text_eq h.tunnel_id t)) [
        | inl hit ↦ rw hit (mem-append_right (closing ok h) later)
        | inr miss ↦ rw miss later
      ]
]

-- When the session that holds a tunnel ends, each socket of the tunnel hears of it and stops: its
-- stream leaves the table, its channel gets the close event, if it is open, and at that event the
-- socket's loop ends after a close frame to the client with code 1011 and "agent disconnected".
pub disconnect_reaches_client :
    (tokens : List Text) (ok : Accepts) (st : AppState) (t : Text) (connection_id id : Uuid)
    (handle : WsStreamHandle) (takes : Takes)
    → IsValid tokens st
    → owns st t connection_id ≡ true
    → lookup id st.ws_streams ≡ some handle
    → handle.tunnel_id ≡ t
    → ((e : WsRelayEvent) → ok handle.sender (ws_event e) ≡ true)
    → let result = remove_agent_if ok st t connection_id in
      let close = WsRelayEvent.close (some 1011) (some (codes "agent disconnected")) in
      Mem (handle.sender, ws_event close) result.1
      × (lookup id result.0.ws_streams ≡ none)
      × (relay_turn takes (some close) ≡ (
        put takes
            (Message.close (some (record { code = 1011; reason = codes "agent disconnected" }))),
        false,
      ))
unfolding relay_turn
disconnect_reaches_client tokens ok st t connection_id id handle takes v mine known same
      takes_event =
    let close = WsRelayEvent.close (some 1011) (some (codes "agent disconnected")) in
    let sends : closing ok handle ≡ (handle.sender, ws_event close) ∷ [] =
      rw (takes_event close) refl in
    rw (remove_agent_if_owner tokens ok st t connection_id v mine) (
      mem-append_right _ (told-Mem ok t id handle _ st.ws_streams known same sends),
      lookup-of_others t id handle st.ws_streams v.streams_map known same,
      refl,
    )
