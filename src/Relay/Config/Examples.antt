-- ===== src/Relay/Config/Examples.antt =====
-- Configurations of crates/relay-server/src/config.rs at concrete values.
use tunely.Prelude.{
  ◌≡◌, ◌≤◌, true, false, refl, ap, none, some, List, [], ◌∷◌, is_empty, get_or_else,
}
use tunely.Prelude.Bytes.{Text, codes, text_eq}
use tunely.Prelude.Split.{trim, trim_start, trim_end, space_len, split_commas}
use tunely.Relay.State.{new, validate_token}
use tunely.Relay.Config.{
  Config, ResolvedConfig, FileConfig, Files, ok, err, empty_token, parse_auth_tokens,
  normalize_token_list, normalize_onto, insert_token, load_file_config, file_tokens,
  validate_resolved, apply_file, apply_arguments, from_file, resolve,
}
use tunely.Relay.Config.Resolve.{resolve_precedence, resolve_usable}

tokens_of_a_line : parse_auth_tokens (codes " a, b,a") ≡ ok (codes "b" ∷ codes "a" ∷ [])
unfolding parse_auth_tokens normalize_token_list normalize_onto insert_token trim trim_start
    trim_end space_len split_commas text_eq
tokens_of_a_line = refl

empty_token_refused : parse_auth_tokens (codes "a,,b") ≡ err empty_token
unfolding parse_auth_tokens normalize_token_list normalize_onto insert_token trim trim_start
    trim_end space_len split_commas text_eq
empty_token_refused = refl

abbrev file_cfg : FileConfig
file_cfg = record {
  listen = some (codes "0.0.0.0:9000");
  auth_tokens = some (codes "f" ∷ []);
  request_timeout_secs = none;
}

-- One file, which the YAML reader knows.
abbrev files : Files
files = record {
  Value = Text;
  read_to_string = λ path. some (codes "listen: x");
  from_str = λ raw. some raw;
  is_null = is_empty;
  from_value = λ v. some file_cfg;
}

abbrev config : Config
config = record {
  config = some (codes "relay.yaml");
  listen = none;
  auth_tokens = some (codes "b" ∷ codes "a" ∷ []);
  request_timeout_secs = some 5;
}

abbrev resolved : ResolvedConfig
resolved = record {
  listen = codes "0.0.0.0:9000";
  auth_tokens = codes "b" ∷ codes "a" ∷ [];
  request_timeout_secs = 5;
}

resolve_test : resolve files config ≡ ok resolved
unfolding resolve from_file load_file_config apply_file file_tokens apply_arguments
    validate_resolved normalize_token_list normalize_onto insert_token trim trim_start trim_end
    space_len text_eq
resolve_test = refl

tokens_given :
    (tokens : List Text)
    → config.auth_tokens ≡ some tokens
    → parse_auth_tokens (codes " a, b,a") ≡ ok tokens
tokens_given tokens given =
    let same : (codes "b" ∷ codes "a" ∷ []) ≡ tokens = cc given in rw tokens_of_a_line (ap ok same)

resolve_precedence_example :
    (resolved.listen
      ≡ get_or_else none (get_or_else (some (codes "0.0.0.0:9000")) (codes "0.0.0.0:8080")))
    × (resolved.request_timeout_secs ≡ get_or_else (some 5) (get_or_else none 60))
    × ((tokens : List Text) × (file_tokens (some (codes "f" ∷ [])) [] ≡ ok tokens)
        × (resolved.auth_tokens ≡ get_or_else (some (codes "b" ∷ codes "a" ∷ [])) tokens))
unfolding load_file_config trim trim_start trim_end space_len
resolve_precedence_example =
    resolve_precedence files config (codes "relay.yaml") file_cfg resolved refl refl resolve_test

resolve_usable_example :
    (is_empty (trim resolved.listen) ≡ false)
    × (1 ≤ resolved.request_timeout_secs)
    × (validate_token (new resolved.auth_tokens resolved.request_timeout_secs) [] ≡ false)
    × ((t : Text) × (validate_token (new resolved.auth_tokens resolved.request_timeout_secs) t
          ≡ true))
resolve_usable_example =
    resolve_usable files config resolved
      (λ tokens given. (codes " a, b,a", tokens_given tokens given)) resolve_test
