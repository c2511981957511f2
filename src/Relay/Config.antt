-- ===== src/Relay/Config.antt =====
-- crates/relay-server/src/config.rs: the relay's configuration from its arguments and a file. The
-- file system and the YAML library are parameters.
pub mod Resolve
mod Examples
use tunely.Prelude.{
  ℕ, zero, suc, Bool, true, false, ◌&&◌, ◌||◌, Option, none, some, List, [], ◌∷◌, ◌==◌, leb,
  if◌then◌else◌, is_empty, get_or_else,
}
use tunely.Prelude.Bytes.{Text, codes, contains}
use tunely.Prelude.Split.{trim, split_commas}

pub record Config : Type 0 where
  pub config : Option Text
  pub listen : Option Text
  pub auth_tokens : Option (List Text)
  pub request_timeout_secs : Option ℕ

-- A set of tokens is a list in which no token stands twice.
pub record ResolvedConfig : Type 0 where
  pub listen : Text
  pub auth_tokens : List Text
  pub request_timeout_secs : ℕ

pub record FileConfig : Type 0 where
  pub listen : Option Text
  pub auth_tokens : Option (List Text)
  pub request_timeout_secs : Option ℕ

pub data ConfigError : Type 0 where
  unreadable invalid_yaml invalid_schema empty_token empty_listen zero_timeout no_tokens :
      ConfigError

pub data Result {ℓ} (A : Type ℓ) : Type ℓ where
  ok : A → Result A
  err : ConfigError → Result A

abbrev pub and_then {ℓ κ} : {A : Type ℓ} {B : Type κ} → Result A → (A → Result B) → Result B
and_then (ok a) f = f a
and_then (err e) f = err e

-- `std::fs::read_to_string` and `serde_yaml`
pub record Files : Type 1 where
  pub Value : Type 0
  pub read_to_string : Text → Option Text
  pub from_str : Text → Option Value
  pub is_null : Value → Bool
  pub from_value : Value → Option FileConfig

-- `FileConfig::default`
abbrev pub no_file_config : FileConfig
no_file_config = record { listen = none; auth_tokens = none; request_timeout_secs = none }

unfoldable pub load_file_config : Files → Text → Result FileConfig
unfolding trim
load_file_config files path = elim (files.read_to_string path) [
  | none ↦ err unreadable
  | some raw ↦ if is_empty (trim raw) then ok no_file_config else elim (files.from_str raw) [
    | none ↦ err invalid_yaml
    | some value ↦
        if files.is_null value then ok no_file_config else elim (files.from_value value) [
          | none ↦ err invalid_schema
          | some file_cfg ↦ ok file_cfg
        ]
  ]
]

unfoldable pub insert_token : Text → List Text → List Text
insert_token token out = if contains out token then out else token ∷ out

-- The loop of `normalize_token_list` over the set built so far.
unfoldable pub normalize_onto : List Text → List Text → Result (List Text)
unfolding trim insert_token
normalize_onto out [] = ok out
normalize_onto out (token ∷ tokens) =
    let rest = normalize_onto (insert_token (trim token) out) tokens in
    if is_empty (trim token) then err empty_token else rest

unfoldable pub normalize_token_list : List Text → Result (List Text)
unfolding normalize_onto
normalize_token_list tokens = normalize_onto [] tokens

unfoldable pub parse_auth_tokens : Text → Result (List Text)
unfolding trim
parse_auth_tokens raw =
    if is_empty (trim raw) then ok [] else normalize_token_list (split_commas raw)

unfoldable pub validate_resolved : ResolvedConfig → Result ResolvedConfig
unfolding trim
validate_resolved config =
    if is_empty (trim config.listen)
    then err empty_listen
    else if config.request_timeout_secs == 0
    then err zero_timeout
    else if is_empty config.auth_tokens
    then err no_tokens
    else ok config

-- The values before the arguments are looked at.
abbrev pub default_config : ResolvedConfig
default_config = record {
  listen = codes "0.0.0.0:8080";
  auth_tokens = [];
  request_timeout_secs = 60;
}

-- The tokens of the file, if it has any.
unfoldable pub file_tokens : Option (List Text) → List Text → Result (List Text)
unfolding normalize_token_list
file_tokens none before = ok before
file_tokens (some tokens) before = normalize_token_list tokens

unfoldable pub apply_file : ResolvedConfig → FileConfig → Result ResolvedConfig
unfolding file_tokens
apply_file resolved file_cfg =
    and_then (file_tokens file_cfg.auth_tokens resolved.auth_tokens) (λ tokens. ok (record {
      listen = get_or_else file_cfg.listen resolved.listen;
      auth_tokens = tokens;
      request_timeout_secs =
          get_or_else file_cfg.request_timeout_secs resolved.request_timeout_secs;
    }))

unfoldable pub apply_arguments : ResolvedConfig → Config → ResolvedConfig
apply_arguments resolved config = record {
  listen = get_or_else config.listen resolved.listen;
  auth_tokens = get_or_else config.auth_tokens resolved.auth_tokens;
  request_timeout_secs = get_or_else config.request_timeout_secs resolved.request_timeout_secs;
}

-- The values after the file, if there is one.
unfoldable pub from_file : Files → Option Text → Result ResolvedConfig
unfolding load_file_config apply_file
from_file files none = ok default_config
from_file files (some path) =
    and_then (load_file_config files path) (λ file_cfg. apply_file default_config file_cfg)

-- `Config::resolve`
unfoldable pub resolve : Files → Config → Result ResolvedConfig
unfolding from_file apply_arguments validate_resolved
resolve files config =
    and_then (from_file files config.config)
      (λ resolved. validate_resolved (apply_arguments resolved config))
