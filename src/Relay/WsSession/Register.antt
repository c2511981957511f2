-- ===== src/Relay/WsSession/Register.antt =====
-- crates/relay-server/src/ws_session.rs: which agents are admitted, and what registration does.
use tunely.Prelude.{
  ℕ, ◌≡◌, ◌≤◌, ◌↔◌, refl, ◌⊎◌, inl, inr, Bool, true, false, not, List, [], ◌∷◌, arith, Option, none,
  some, All, length, is_empty, Option-cases, get_or_else, ◌&&◌, if◌then◌else◌,
}
use mathlib.Core.List.{Mem}
use tunely.Prelude.Bytes.{Text, codes, contains, contains_iff}
use tunely.Prelude.Map.{lookup, insert}
use tunely.Protocol.{is_supported_protocol_version}
use tunely.Protocol.Message.{ControlMessage}
use tunely.Relay.Events.{Sent, Accepts, send_control}
use tunely.Relay.State.{AppState, AgentHandle, validate_token, insert_agent_if_absent}
use tunely.Relay.State.TunnelId.{is_valid_tunnel_id, is_valid_tunnel_id_iff, IsTunnelIdByte}
use tunely.Relay.WsSession.{Session, register, refuse, admit, ack, unsupported}

-- A token is accepted exactly when it is one of the configured tokens, so none is accepted when
-- none is configured.
pub validate_token_iff :
    (st : AppState) (token : Text) → (validate_token st token ≡ true) ↔ Mem token st.auth_tokens
unfolding validate_token
validate_token_iff st token = (
  λ h. (contains_iff st.auth_tokens token).0 (ground arith),
  λ m. member st.auth_tokens token ((contains_iff st.auth_tokens token).1 m),
)
  where
    member :
        (tokens : List Text) (token : Text)
        → contains tokens token ≡ true
        → (not (is_empty tokens) && contains tokens token) ≡ true
    member [] token h = cc
    member (t ∷ ts) token h = h

-- What the relay asks of a message before it lets an agent in.
abbrev pub Admissible : AppState → ControlMessage → Text → Type 0
Admissible st (ControlMessage.register_agent tunnel_id token version capabilities) t =
    (tunnel_id ≡ t)
    × ((version ≡ none) ⊎ (version ≡ some 1) ⊎ (version ≡ some 2))
    × (1 ≤ length t)
    × (length t ≤ 64)
    × All IsTunnelIdByte t
    × Mem token st.auth_tokens
    × (lookup t st.agents ≡ none)
Admissible st msg t = ⊥

supported_iff :
    (version : Option ℕ)
    → (is_supported_protocol_version (get_or_else version 1) ≡ true)
      ↔ ((version ≡ none) ⊎ (version ≡ some 1) ⊎ (version ≡ some 2))
unfolding is_supported_protocol_version
supported_iff none = (λ h. inl refl, λ h. refl)
supported_iff (some v) = (λ h. ground arith, λ h. ground arith)

register_tests :
    (s : Session) (ok : Accepts) (st : AppState) (tunnel_id token t : Text) (version : Option ℕ)
    (capabilities : List Text)
    → (register s ok st (ControlMessage.register_agent tunnel_id token version capabilities)).2
      ≡ some t
    → (tunnel_id ≡ t)
      × (is_supported_protocol_version (get_or_else version 1) ≡ true)
      × (is_valid_tunnel_id tunnel_id ≡ true)
      × (validate_token st token ≡ true)
      × (lookup tunnel_id st.agents ≡ none)
unfolding register refuse insert_agent_if_absent
register_tests s ok st tunnel_id token t version capabilities h = ground arith

register_sound :
    (s : Session) (ok : Accepts) (st : AppState) (msg : ControlMessage) (t : Text)
    → (register s ok st msg).2 ≡ some t
    → Admissible st msg t
unfolding register refuse insert_agent_if_absent
register_sound s ok st (ControlMessage.register_agent tunnel_id token version capabilities) t h =
    let (e, v, valid, known, free) =
      register_tests s ok st tunnel_id token t version capabilities h in
    let (lo, hi, chars) = (is_valid_tunnel_id_iff tunnel_id).0 valid in
    rw (← e) (
      refl,
      (supported_iff version).0 v,
      lo,
      hi,
      chars,
      (validate_token_iff st token).0 known,
      free,
    )
register_sound s ok st msg t h = cc

register_complete :
    (s : Session) (ok : Accepts) (st : AppState) (msg : ControlMessage) (t : Text)
    → Admissible st msg t
    → (register s ok st msg).2 ≡ some t
unfolding register refuse insert_agent_if_absent
register_complete s ok st (ControlMessage.register_agent tunnel_id token version capabilities) t
      (e, v, lo, hi, chars, known, free) =
    ground (
      arith,
      (supported_iff version).1 v,
      (is_valid_tunnel_id_iff t).1 (lo, hi, chars),
      (validate_token_iff st token).1 known,
    )
register_complete s ok st msg t h = absurd h

-- An agent is admitted to a tunnel exactly when its first message registers that tunnel, under
-- protocol version 1 or 2 or none given, with a name of 1 to 64 letters, digits, dashes and
-- underscores and one of the configured tokens, and no agent has the tunnel.
pub register_iff :
    (s : Session) (ok : Accepts) (st : AppState) (msg : ControlMessage) (t : Text)
    → ((register s ok st msg).2 ≡ some t) ↔ Admissible st msg t
register_iff s ok st msg t = (register_sound s ok st msg t, register_complete s ok st msg t)

-- What registration leaves behind.
unfoldable pub Registered :
    Session → Accepts → AppState → AppState × List Sent × Option Text → Type 0
Registered s ok st r =
    ((r.2 ≡ none)
      × (r.0 ≡ st)
      × ((reason : Text) × (r.1 ≡ (send_control s.json ok s.out_tx (ack false (some reason))).0)))
    ⊎ ((t : Text) × (h : AgentHandle) × (r.2 ≡ some t)
        × (h.connection_id ≡ s.connection_id)
        × (h.sender ≡ s.out_tx)
        × (r.0 ≡ record st { agents = insert t h st.agents })
        × (r.1 ≡ (send_control s.json ok s.out_tx (ack true none)).0))

refuse-Registered :
    (s : Session) (ok : Accepts) (st : AppState) (reason : Text)
    → Registered s ok st (refuse s ok st reason)
unfolding refuse Registered
refuse-Registered s ok st reason = inl (refl, refl, (reason, refl))

if-Registered :
    (s : Session) (ok : Accepts) (st : AppState) (b : Bool)
    (x y : AppState × List Sent × Option Text)
    → Registered s ok st x
    → Registered s ok st y
    → Registered s ok st (if b then x else y)
if-Registered s ok st true x y hx hy = hx
if-Registered s ok st false x y hx hy = hy

admit-Registered :
    (s : Session) (ok : Accepts) (st : AppState) (t : Text) (h : AgentHandle)
    → h.connection_id ≡ s.connection_id
    → h.sender ≡ s.out_tx
    → Registered s ok st (admit s ok st t h)
unfolding admit insert_agent_if_absent Registered
admit-Registered s ok st t h connection sender = elim (Option-cases (lookup t st.agents)) [
  | inl free ↦
      rw (free, admit, insert_agent_if_absent) (inr (t, h, refl, connection, sender, refl, refl))
  | inr (held, e) ↦ rw (e, admit, insert_agent_if_absent) (refuse-Registered s ok st _)
]

-- Registration either admits no one, leaves the tables as they were and answers with a negative
-- acknowledgement that gives a reason, or enters the session's connection and channel as the
-- tunnel's agent, changes no other table and answers with a positive one.
pub register_outcome :
    (s : Session) (ok : Accepts) (st : AppState) (msg : ControlMessage)
    → Registered s ok st (register s ok st msg)
unfolding register
register_outcome s ok st (ControlMessage.register_agent tunnel_id token version capabilities) =
    let peer = get_or_else version 1 in
    if-Registered s ok st (not (is_supported_protocol_version peer)) _ _
      (refuse-Registered s ok st (unsupported s.digits peer))
      (if-Registered s ok st (not (is_valid_tunnel_id tunnel_id)) _ _
        (refuse-Registered s ok st (codes "invalid tunnel_id format"))
        (if-Registered s ok st (not (validate_token st token)) _ _
          (refuse-Registered s ok st (codes "invalid token"))
          (admit-Registered s ok st tunnel_id
            (record {
              connection_id = s.connection_id;
              sender = s.out_tx;
              capabilities = capabilities;
              protocol_version = peer;
            })
            refl refl)))
register_outcome s ok st msg =
    refuse-Registered s ok st (codes "first message must be register_agent")
