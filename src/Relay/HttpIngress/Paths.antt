-- ===== src/Relay/HttpIngress/Paths.antt =====
-- crates/relay-server/src/http_ingress.rs: the path that the agent is asked for.
use tunely.Prelude.{
  ◌≡◌, ◌≢◌, Option, none, some, [], ◌∷◌, ◌++◌, if◌then◌else◌, is_empty, get_or_else,
}
use tunely.Prelude.Bytes.{Text, codes, strip_prefix, strip_prefix-append}
use tunely.Relay.HttpIngress.{extract_target_path}

-- A request under the tunnel's route is passed on without the route's prefix, the query included,
-- and the bare route asks for the root.
pub extract_target_path-route :
    (tunnel_id rest tail_path : Text)
    → extract_target_path (some ((codes "/t/" ++ tunnel_id) ++ rest)) tunnel_id tail_path
      ≡ (if is_empty rest then codes "/" else rest)
unfolding extract_target_path
extract_target_path-route tunnel_id rest tail_path =
    rw (strip_prefix-append (codes "/t/" ++ tunnel_id) rest, extract_target_path)

nonempty_or_root : (s : Text) → (if is_empty s then codes "/" else s) ≢ []
nonempty_or_root [] = λ e. cc
nonempty_or_root (c ∷ s) = λ e. cc

-- The agent is never asked for an empty path.
pub extract_target_path-ne_nil :
    (path_and_query : Option Text) (tunnel_id tail_path : Text)
    → extract_target_path path_and_query tunnel_id tail_path ≢ []
unfolding extract_target_path
extract_target_path-ne_nil (some pq) tunnel_id tail_path =
    nonempty_or_root (get_or_else (strip_prefix (codes "/t/" ++ tunnel_id) pq) pq)
extract_target_path-ne_nil none tunnel_id [] = λ e. cc
extract_target_path-ne_nil none tunnel_id (c ∷ tail_path) = λ e. cc
