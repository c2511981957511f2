-- ===== src/EchoServer/Maps.antt =====
-- examples/echo-server/src/main.rs: what the map of the headers holds.
use tunely.Prelude.{◌≡◌, refl, Option, none, some, List, [], ◌∷◌, if◌then◌else◌, get_or_else}
use tunely.Prelude.Bytes.{Text, codes, text_eq, text_eq_iff}
use tunely.Prelude.{arith}
use tunely.External.{Http}
use tunely.EchoServer.{Value, Members, string, empty, member, insert, insert_headers}

-- `Map::get`
unfoldable pub value_of : Text → Members → Option Value
value_of name empty = none
value_of name (member n v rest) = if text_eq n name then some v else value_of name rest

value_of-insert :
    (name asked : Text) (new : Value) (m : Members)
    → value_of asked (insert name new m)
      ≡ (if text_eq name asked then some new else value_of asked m)
unfolding insert value_of
value_of-insert name asked new empty = refl
value_of-insert name asked new (member n v rest) =
    let tail = value_of-insert name asked new rest in
    ground (arith, tail, text_eq_iff n name, text_eq_iff name asked, text_eq_iff n asked)

module _ (http : Http) where
  open http use {HeaderValue, to_str}

  -- The last value of a name, as it is shown, or else what is given.
  unfoldable pub last_shown : Text → List (Text × HeaderValue) → Option Value → Option Value
  last_shown asked [] found = found
  last_shown asked ((name, value) ∷ headers) found =
      last_shown asked headers (
        if text_eq name asked
        then some (string (get_or_else (to_str value) (codes "?")))
        else found)

  -- The map holds, under each name, the last value of that name.
  pub value_of-insert_headers :
      (asked : Text) (headers : List (Text × HeaderValue)) (m : Members)
      → value_of asked (insert_headers http headers m) ≡ last_shown asked headers (value_of asked m)
  unfolding insert_headers last_shown
  value_of-insert_headers asked [] m = refl
  value_of-insert_headers asked ((name, value) ∷ headers) m =
      let shown = string (get_or_else (to_str value) (codes "?")) in
      rw
        (
          value_of-insert_headers asked headers (insert name shown m),
          value_of-insert name asked shown m,
        )
        refl
