-- ===== src/Relay/Server.antt =====
-- crates/relay-server/src/main.rs and src/health.rs: how the relay starts, what it serves where, and the
-- health answers. The number of the package's version is an argument; logging is left out.
use tunely.Prelude.{Bool, List, [], ◌∷◌, if◌then◌else◌}
use tunely.Prelude.Bytes.{Text, codes}
use tunely.Relay.Config.{Config, ResolvedConfig, ConfigError, Files, Result, ok, err, resolve}
use tunely.Relay.State.{AppState, new}
mod Tokens
mod Start
mod Examples

pub record HealthPayload : Type 0 where
  pub status : Text
  pub service : Text
  pub version : Text

unfoldable pub healthz : Text → HealthPayload
healthz version = record { status = codes "ok"; service = codes "relay-server"; version = version }

unfoldable pub readyz : Text → HealthPayload
readyz version = record {
  status = codes "ready";
  service = codes "relay-server";
  version = version;
}

-- The first is a health answer, from the version.
pub data Handler : Type 0 where
  answers : (Text → HealthPayload) → Handler
  ws_handler ingress_root ingress_path : Handler

-- `get` and `any` of `axum::routing`.
pub data MethodRouter : Type 0 where
  get any : Handler → MethodRouter

-- The routes of `main`, in order.
unfoldable pub app : List (Text × MethodRouter)
unfolding healthz readyz
app =
    (codes "/healthz", get (answers healthz))
    ∷ (codes "/readyz", get (answers readyz))
    ∷ (codes "/ws", get ws_handler)
    ∷ (codes "/t/:tunnel_id", any ingress_root)
    ∷ (codes "/t/:tunnel_id/", any ingress_root)
    ∷ (codes "/t/:tunnel_id/*path", any ingress_path)
    ∷ []

-- How far `main` comes: the configuration is refused, the address cannot be bound, or the routes are
-- served with these tables.
pub data Outcome : Type 0 where
  refused : ConfigError → Outcome
  not_bound : Text → Outcome
  serving : Text → AppState → List (Text × MethodRouter) → Outcome

-- What `main` does with its configuration; `binds` is whether an address can be bound.
unfoldable pub serve : (Text → Bool) → Result ResolvedConfig → Outcome
unfolding new app
serve binds (err e) = refused e
serve binds (ok r) =
    if binds r.listen
    then serving r.listen (new r.auth_tokens r.request_timeout_secs) app
    else not_bound r.listen

-- `main`, after its arguments are parsed.
unfoldable pub main : Files → (Text → Bool) → Config → Outcome
unfolding resolve serve
main files binds config = serve binds (resolve files config)
