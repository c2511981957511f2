-- ===== src/Agent/PublicUrl.antt =====
-- crates/agent/src/relay_client.rs: `derive_public_tunnel_url`, the address that clients use.
use tunely.Prelude.{
  ℕ, ◌≡◌, refl, ◌==◌, ◌&&◌, false, Option, none, some, [], ◌∷◌, ◌++◌, if◌then◌else◌, is_empty,
  get_or_else, arith, append_assoc, Bool-cases, ap, length, length-append, inl, inr,
}
use tunely.Prelude.Bytes.{Text, codes, text_eq, text_eq_iff}
use tunely.Agent.LocalProxy.{UrlLib}
use tunely.Relay.HttpIngress.{extract_target_path}
use tunely.Relay.HttpIngress.Paths.{extract_target_path-route}

-- `trim_end_matches('/')`
unfoldable pub trim_end_slashes : Text → Text
trim_end_slashes [] = []
trim_end_slashes (c ∷ s) =
    let rest = trim_end_slashes s in if is_empty rest && c == b'/' then [] else c ∷ rest

-- `str::strip_suffix`
unfoldable pub strip_suffix : Text → Text → Option Text
strip_suffix suffix [] = if text_eq [] suffix then some [] else none
strip_suffix suffix (c ∷ s) =
    let rest : Option Text = elim (strip_suffix suffix s) [
      | none ↦ none
      | some front ↦ some (c ∷ front)
    ] in
    if text_eq (c ∷ s) suffix then some [] else rest

-- The `match` on the scheme.
unfoldable pub public_scheme : Text → Option Text
public_scheme s =
    if text_eq s (codes "ws")
    then some (codes "http")
    else if text_eq s (codes "wss")
    then some (codes "https")
    else if text_eq s (codes "http")
    then some (codes "http")
    else if text_eq s (codes "https")
    then some (codes "https")
    else none

-- `tunnel_path`, for the path of the relay's address.
unfoldable pub public_tunnel_path : Text → Text → Text
unfolding trim_end_slashes strip_suffix
public_tunnel_path path tunnel_id =
    let base_path = get_or_else (strip_suffix (codes "/ws") (trim_end_slashes path)) [] in
    if is_empty base_path
    then codes "/t/" ++ (tunnel_id ++ codes "/")
    else base_path ++ (codes "/t/" ++ (tunnel_id ++ codes "/"))

-- The rest of the `url` crate: `path`, `set_path`, `set_query(None)`, `set_fragment(None)` and
-- `to_string`.
pub record UrlParts (url : UrlLib) : Type 0 where
  pub path : url.Url → Text
  pub set_path : url.Url → Text → url.Url
  pub clear_query : url.Url → url.Url
  pub clear_fragment : url.Url → url.Url
  pub to_string : url.Url → Text

module _ (url : UrlLib) (parts : UrlParts url) where
  unfoldable pub derive_public_tunnel_url : Text → Text → Option Text
  unfolding public_scheme public_tunnel_path
  derive_public_tunnel_url relay_url tunnel_id = elim (url.parse relay_url) [
    | none ↦ none
    | some parsed ↦ elim (public_scheme (url.scheme parsed)) [
      | none ↦ none
      | some scheme ↦ elim (url.set_scheme parsed scheme) [
        | none ↦ none
        | some public ↦ some (
            parts.to_string (
              parts.clear_fragment (
                parts.clear_query
                  (parts.set_path public (public_tunnel_path (parts.path public) tunnel_id)))))
      ]
    ]
  ]

longer-ne : (c : ℕ) (front : Text) → text_eq (c ∷ (front ++ codes "/ws")) (codes "/ws") ≡ false
longer-ne c front = elim (Bool-cases (text_eq (c ∷ (front ++ codes "/ws")) (codes "/ws"))) [
  | inr differ ↦ differ
  | inl same ↦
      let eq = (text_eq_iff (c ∷ (front ++ codes "/ws")) (codes "/ws")).0 same in
      absurd (omega (arith, ap length eq, length-append front (codes "/ws")))
]

strip_suffix-append :
    (front : Text) → strip_suffix (codes "/ws") (front ++ codes "/ws") ≡ some front
unfolding strip_suffix text_eq
strip_suffix-append [] = refl
strip_suffix-append (c ∷ front) = rw (longer-ne c front) (rw (strip_suffix-append front))

trim_end_slashes-append :
    (front : Text) → trim_end_slashes (front ++ codes "/ws") ≡ front ++ codes "/ws"
unfolding trim_end_slashes
trim_end_slashes-append [] = refl
trim_end_slashes-append (c ∷ []) = refl
trim_end_slashes-append (c ∷ d ∷ front) = rw (trim_end_slashes-append (d ∷ front))

public_tunnel_path-base :
    (base tunnel_id : Text)
    → public_tunnel_path (base ++ codes "/ws") tunnel_id
      ≡ base ++ (codes "/t/" ++ (tunnel_id ++ codes "/"))
unfolding public_tunnel_path
public_tunnel_path-base base tunnel_id =
    rw (trim_end_slashes-append base, public_tunnel_path)
      (rw (strip_suffix-append base, public_tunnel_path) (joined base))
  where
    joined :
        (front : Text)
        → (if is_empty front
            then codes "/t/" ++ (tunnel_id ++ codes "/")
            else front ++ (codes "/t/" ++ (tunnel_id ++ codes "/")))
          ≡ front ++ (codes "/t/" ++ (tunnel_id ++ codes "/"))
    joined [] = refl
    joined (c ∷ front) = refl

-- The path of the address that clients are told is that of the relay with the tunnel's route in place
-- of the last "/ws"; and if the relay's path is just "/ws", then a client that goes on from that
-- address to a further path makes the relay ask the agent for that further path.
pub public_tunnel_path_lem :
    (base tunnel_id rest tail_path : Text)
    → (public_tunnel_path (base ++ codes "/ws") tunnel_id
        ≡ base ++ (codes "/t/" ++ (tunnel_id ++ codes "/")))
      × (extract_target_path
            (some (public_tunnel_path (codes "/ws") tunnel_id ++ rest))
            tunnel_id
            tail_path
          ≡ codes "/" ++ rest)
public_tunnel_path_lem base tunnel_id rest tail_path = (
  public_tunnel_path-base base tunnel_id,
  rw (public_tunnel_path-base [] tunnel_id, append_assoc tunnel_id (codes "/") rest)
      (extract_target_path-route tunnel_id (codes "/" ++ rest) tail_path),
)
