-- ===== src/Relay/Server/Start.antt =====
-- crates/relay-server/src/main.rs: whom a relay admits that was started with some arguments and some
-- file.
use tunely.Prelude.{◌≡◌, refl, ◌↔◌, inl, inr, Bool, Option, some, List, Bool-cases}
use mathlib.Core.List.{Mem}
use tunely.Prelude.Bytes.{Text}
use tunely.Protocol.Message.{ControlMessage}
use tunely.Relay.Events.{Accepts}
use tunely.Relay.Config.{Config, ResolvedConfig, FileConfig, Files, Result, ok, err, resolve}
use tunely.Relay.State.{AppState, new}
use tunely.Relay.State.Steps.{Op, run}
use tunely.Relay.State.Valid.{run-new-IsValid}
use tunely.Relay.WsSession.{Session, register}
use tunely.Relay.WsSession.Register.{Admissible, register_iff}
use tunely.Relay.Server.{MethodRouter, not_bound, serving, serve, main}
use tunely.Relay.Server.Tokens.{FileRead, ArgumentsRead, configured, Mem-resolve}

serve-serving :
    (binds : Text → Bool) (o : Result ResolvedConfig) (address : Text) (st : AppState)
    (routes : List (Text × MethodRouter))
    → serve binds o ≡ serving address st routes
    → (r : ResolvedConfig) × (o ≡ ok r) × (st ≡ new r.auth_tokens r.request_timeout_secs)
unfolding serve
serve-serving binds (err x) address st routes e = cc
serve-serving binds (ok r) address st routes e = elim (Bool-cases (binds r.listen)) [
  | inl bound ↦ (r, refl, let e = rw bound at e in cc)
  | inr free ↦
      absurd (let bad : not_bound r.listen ≡ serving address st routes = rw free at e in cc bad)
]

-- The same, of the tokens that are written instead of those in the tables.
Admissible-tokens :
    (st : AppState) (written : List Text) (msg : ControlMessage) (t : Text)
    → ((token : Text) → Mem token st.auth_tokens ↔ Mem token written)
    → Admissible st msg t ↔ Admissible (record st { auth_tokens = written }) msg t
Admissible-tokens st written (ControlMessage.register_agent tunnel_id token version capabilities) t
      same =
    (
      λ (named, v, lo, hi, chars, known, free).
          (named, v, lo, hi, chars, (same token).0 known, free),
      λ (named, v, lo, hi, chars, known, free).
          (named, v, lo, hi, chars, (same token).1 known, free),
    )
Admissible-tokens st written msg t same = (λ h. h, λ h. h)

-- A relay that has started, whatever its tasks have done since, admits an agent to a tunnel exactly
-- when its first message is admissible with a token that is written on the command line, or in the
-- file if the command line has none, where white space around a token does not count.
pub started_relay_admits :
    (files : Files) (binds : Text → Bool) (config : Config) (given : Option Text)
    (file_cfg : FileConfig) (address : Text) (st : AppState) (routes : List (Text × MethodRouter))
    (ops : List (Accepts × Op)) (s : Session) (accepts : Accepts) (msg : ControlMessage) (t : Text)
    → ArgumentsRead config given
    → FileRead files config file_cfg
    → main files binds config ≡ serving address st routes
    → ((register s accepts (run st ops) msg).2 ≡ some t)
      ↔ Admissible (record (run st ops) { auth_tokens = configured given file_cfg }) msg t
started_relay_admits files binds config given file_cfg address st routes ops s accepts msg t
      arguments file e =
    let (r, resolved, made) =
      serve-serving binds (resolve files config) address st routes (unfold main in e) in
    let kept : (run st ops).auth_tokens ≡ r.auth_tokens =
      rw made (run-new-IsValid r.auth_tokens r.request_timeout_secs ops).tokens_kept in
    let same =
      λ (token : Text). Mem-resolve files config given file_cfg r token arguments file resolved in
    let tokens = Admissible-tokens (run st ops) (configured given file_cfg) msg t (rw kept same) in
    let admitted = register_iff s accepts (run st ops) msg t in
    (λ h. tokens.0 (admitted.0 h), λ h. admitted.1 (tokens.1 h))
