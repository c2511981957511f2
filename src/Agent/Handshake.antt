-- ===== src/Agent/Handshake.antt =====
-- crates/agent/src/relay_client.rs: `send_register` and `wait_register_ack`, and how they meet the
-- relay's registration in crates/relay-server/src/ws_session.rs.
use tunely.Prelude.{
  ℕ, ◌≡◌, Bool, true, false, not, none, some, List, [], ◌∷◌, if◌then◌else◌, get_or_else, any,
}
use tunely.Prelude.Bytes.{Text, codes, text_eq}
use tunely.Protocol.{
  protocol_version, legacy_protocol_version, cap_ws_tunnel_v1, is_supported_protocol_version,
}
use tunely.Protocol.Message.{ControlMessage, Json}
use tunely.Agent.Events.{Message}
use tunely.Relay.Events

-- `Config`, with its defaults filled in.
pub record Config : Type 0 where
  pub relay : Text
  pub tunnel_id : Text
  pub token : Text
  pub local_base : Text
  pub ping_interval_secs : ℕ
  pub max_backoff_secs : ℕ

-- The message of `send_register`.
unfoldable pub register_message : Config → ControlMessage
register_message config =
    ControlMessage.register_agent config.tunnel_id config.token (some protocol_version)
      (cap_ws_tunnel_v1 ∷ [])

pub data RegisterError : Type 0 where
  timed_out closed read_failed not_text invalid_json unexpected : RegisterError
  unsupported_version : ℕ → RegisterError
  rejected : Text → RegisterError

pub data Result {ℓ} (A : Type ℓ) : Type ℓ where
  ok : A → Result A
  err : RegisterError → Result A

pub record RegisterAckInfo : Type 0 where
  pub relay_protocol_version : ℕ
  pub relay_capabilities : List Text

-- What the ten seconds' wait for `ws_reader.next()` gives.
pub data AckRead : Type 0 where
  received : Message → AckRead
  timed_out closed read_failed : AckRead

unfoldable pub read_ack : ControlMessage → Result RegisterAckInfo
read_ack (ControlMessage.register_ack true reason version capabilities) =
    let peer = get_or_else version legacy_protocol_version in
    if not (is_supported_protocol_version peer)
    then err (unsupported_version peer)
    else ok (record { relay_protocol_version = peer; relay_capabilities = capabilities })
read_ack (ControlMessage.register_ack false reason version capabilities) =
    err (rejected (get_or_else reason (codes "unknown")))
read_ack msg = err unexpected

unfoldable pub wait_register_ack : Json → AckRead → Result RegisterAckInfo
wait_register_ack json AckRead.timed_out = err RegisterError.timed_out
wait_register_ack json AckRead.closed = err RegisterError.closed
wait_register_ack json AckRead.read_failed = err RegisterError.read_failed
wait_register_ack json (received (Message.text text)) = elim (json.from_str text) [
  | none ↦ err invalid_json
  | some msg ↦ read_ack msg
]
wait_register_ack json (received msg) = err not_text

-- `relay_supports_ws` of `run_once`.
unfoldable pub relay_supports_ws : RegisterAckInfo → Bool
relay_supports_ws info = any (λ c. text_eq c cap_ws_tunnel_v1) info.relay_capabilities

-- `serde_json` writes a message and reads it back.
abbrev pub IsFaithful : Json → ControlMessage → Type 0
IsFaithful json msg =
    (text : Text) × (json.to_string msg ≡ some text) × (json.from_str text ≡ some msg)

-- What the agent makes of what comes in on its websocket, which ends after that, with an error if it
-- is not closed in order.
unfoldable pub read_reply : Json → Bool → List Events.Message → Result RegisterAckInfo
read_reply json in_order (Events.Message.text text ∷ out) =
    wait_register_ack json (received (Message.text text))
read_reply json in_order out =
    wait_register_ack json (if in_order then AckRead.closed else AckRead.read_failed)

-- The error of an agent that hears nothing.
abbrev pub unheard : Bool → RegisterError
unheard in_order = if in_order then RegisterError.closed else RegisterError.read_failed

-- What an agent learns of this relay.
abbrev pub relay_info : RegisterAckInfo
relay_info = record { relay_protocol_version = 2; relay_capabilities = cap_ws_tunnel_v1 ∷ [] }
