-- ===== src/Agent/LocalProxy/Target.antt =====
-- crates/relay-server/src/http_ingress.rs and crates/agent/src/local_proxy.rs: the address that a
-- client's request is sent to.
use tunely.Prelude.{ℕ, ◌≡◌, refl, false, some, ◌∷◌, ◌++◌, ◌==◌, if◌then◌else◌}
use tunely.Prelude.Bytes.{Text, codes}
use tunely.Agent.LocalProxy.{UrlLib, ends_with_slash, trim_start_slashes, compose_local_url}
use tunely.Relay.HttpIngress.{extract_target_path}
use tunely.Relay.HttpIngress.Paths.{extract_target_path-route}

-- The base is a URL once it ends with a slash.
abbrev pub IsBase : UrlLib → Text → Type 0
IsBase url base =
    (parsed : url.Url) × (url.parse (if ends_with_slash base then base else base ++ codes "/")
      ≡ some parsed)

-- `Url::join` does not use the base for an absolute address.
abbrev pub IsAbsolute : UrlLib → Text → Type 0
IsAbsolute url target = (b : url.Url) → url.join b target ≡ url.parse target

trim_start_slashes_one :
    (c : ℕ) (s : Text) → c == b'/' ≡ false → trim_start_slashes (b'/' ∷ c ∷ s) ≡ c ∷ s
unfolding trim_start_slashes
trim_start_slashes_one c s plain = rw plain refl

compose_local_url-join :
    (url : UrlLib) (base path : Text) (parsed : url.Url)
    → url.parse (if ends_with_slash base then base else base ++ codes "/") ≡ some parsed
    → compose_local_url url base path ≡ url.join parsed (trim_start_slashes path)
unfolding compose_local_url
compose_local_url-join url base path parsed reads = rw (reads, compose_local_url) refl

-- A client chooses the server that the agent calls: when what follows `/t/{tunnel_id}/` is an
-- absolute address that does not start with a slash, then the agent's request goes to that address,
-- whatever the configured base is, if the base is a URL.
pub client_chooses_target :
    (url : UrlLib) (base tunnel_id path : Text) (c : ℕ) (target : Text)
    → IsBase url base
    → IsAbsolute url (c ∷ target)
    → c == b'/' ≡ false
    → compose_local_url url base (
        extract_target_path
          (some ((codes "/t/" ++ tunnel_id) ++ (b'/' ∷ c ∷ target)))
          tunnel_id
          path)
      ≡ url.parse (c ∷ target)
client_chooses_target url base tunnel_id path c target (parsed, reads) absolute plain =
    rw (extract_target_path-route tunnel_id (b'/' ∷ c ∷ target) path) (
      rw (compose_local_url-join url base (b'/' ∷ c ∷ target) parsed reads)
        (rw (trim_start_slashes_one c target plain) (absolute parsed)))
