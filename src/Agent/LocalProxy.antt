-- ===== src/Agent/LocalProxy.antt =====
-- crates/agent/src/local_proxy.rs: the address and the headers of a request to the local server. The
-- `url` crate and the HTTP client are parameters.
pub mod Target
use tunely.Prelude.{
  ℕ, Bool, true, false, ◌||◌, Option, none, some, List, [], ◌∷◌, ◌++◌, ◌==◌, if◌then◌else◌, is_some,
}
use tunely.Prelude.Bytes.{
  Text, codes, text_eq, eq_ignore_ascii_case, strip_prefix, to_ascii_lowercase,
}
use tunely.External.{Http}
use tunely.Protocol.Http.{is_hop_header}
use tunely.Protocol.Message.{Headers}

-- `Url::parse`, `Url::join`, `Url::scheme` and `Url::set_scheme`
pub record UrlLib : Type 1 where
  pub Url : Type 0
  pub parse : Text → Option Url
  pub join : Url → Text → Option Url
  pub scheme : Url → Text
  pub set_scheme : Url → Text → Option Url

-- `ends_with('/')`
unfoldable pub ends_with_slash : Text → Bool
ends_with_slash [] = false
ends_with_slash (c ∷ []) = c == b'/'
ends_with_slash (c ∷ d ∷ s) = ends_with_slash (d ∷ s)

-- `trim_start_matches('/')`
unfoldable pub trim_start_slashes : Text → Text
trim_start_slashes [] = []
trim_start_slashes (c ∷ s) = if c == b'/' then trim_start_slashes s else c ∷ s

module _ (url : UrlLib) where
  open url use {Url, parse, join, scheme, set_scheme}

  unfoldable pub compose_local_url : Text → Text → Option Url
  compose_local_url base path_and_query =
      let normalized = if ends_with_slash base then base else base ++ codes "/" in
      elim (parse normalized) [
        | none ↦ none
        | some parsed ↦ join parsed (trim_start_slashes path_and_query)
      ]

  -- The `match` on the scheme.
  unfoldable pub ws_scheme : Text → Option Text
  ws_scheme s =
      if text_eq s (codes "http")
      then some (codes "ws")
      else if text_eq s (codes "https")
      then some (codes "wss")
      else if text_eq s (codes "ws")
      then some (codes "ws")
      else if text_eq s (codes "wss")
      then some (codes "wss")
      else none

  unfoldable pub compose_local_ws_url : Text → Text → Option Url
  unfolding ws_scheme
  compose_local_ws_url base path_and_query = elim (compose_local_url base path_and_query) [
    | none ↦ none
    | some composed ↦ elim (ws_scheme (scheme composed)) [
      | none ↦ none
      | some s ↦ set_scheme composed s
    ]
  ]

module _ (http : Http) where
  open http use {HeaderMap, HeaderValue, entries, header_name, header_value, to_str}

  -- The headers that are put on the request, in order.
  unfoldable pub apply_forward_headers : Headers → List (Text × HeaderValue)
  apply_forward_headers [] = []
  apply_forward_headers ((k, v) ∷ headers) =
      if is_hop_header k
        || eq_ignore_ascii_case k (codes "host")
        || eq_ignore_ascii_case k (codes "content-length")
      then apply_forward_headers headers
      else elim (header_name k) [
        | none ↦ apply_forward_headers headers
        | some name ↦ elim (header_value v) [
          | none ↦ apply_forward_headers headers
          | some value ↦ (name, value) ∷ apply_forward_headers headers
        ]
      ]

  unfoldable pub response_entries : List (Text × HeaderValue) → Headers
  response_entries [] = []
  response_entries ((name, value) ∷ rest) =
      if is_hop_header name then response_entries rest else elim (to_str value) [
        | none ↦ response_entries rest
        | some text ↦ (name, text) ∷ response_entries rest
      ]

  unfoldable pub flatten_response_headers : HeaderMap → Headers
  flatten_response_headers headers = response_entries (entries headers)

unfoldable pub should_skip_ws_forward_header : Text → Bool
should_skip_ws_forward_header name =
    is_hop_header name
    || eq_ignore_ascii_case name (codes "host")
    || eq_ignore_ascii_case name (codes "content-length")
    || is_some (strip_prefix (codes "sec-websocket-") (to_ascii_lowercase name))
