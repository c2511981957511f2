-- ===== src/External.antt =====
-- Code that the repository calls and does not contain, as parameters of the model.
use tunely.Prelude.{ℕ, Option, some, List, [], ◌∷◌, ◌++◌}
use tunely.Prelude.Bytes.{Text, to_ascii_lowercase}
use tunely.Prelude.Map.{lookup}

-- The `http` crate, as the relay (through axum) and the agent (through reqwest) use it. A header
-- name stands for its lower-case text.
pub record Http : Type 1 where
  pub HeaderMap : Type 0
  pub HeaderValue : Type 0
  -- iteration over a map, `HeaderMap::get`, `contains_key` and `append`
  pub entries : HeaderMap → List (Text × HeaderValue)
  pub get : HeaderMap → Text → Option HeaderValue
  pub append : HeaderMap → Text → HeaderValue → HeaderMap
  pub empty : HeaderMap
  -- `HeaderName::from_bytes`, `HeaderValue::from_str` and `HeaderValue::to_str`
  pub header_name : Text → Option Text
  pub header_value : Text → Option HeaderValue
  pub to_str : HeaderValue → Option Text
  -- `StatusCode::from_u16`
  pub from_u16 : ℕ → Option ℕ

-- A small instance: header maps are lists, every name is lower-cased, and every text is a value.
abbrev pub plain_http : Http
plain_http = record {
  HeaderMap = List (Text × Text);
  HeaderValue = Text;
  entries = λ m. m;
  get = λ m name. lookup name m;
  append = λ m name value. m ++ ((name, value) ∷ []);
  empty = [];
  header_name = λ name. some (to_ascii_lowercase name);
  header_value = λ text. some text;
  to_str = λ text. some text;
  from_u16 = λ status. some status;
}
