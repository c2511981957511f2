-- ===== src/Relay/Config/Resolve.antt =====
-- crates/relay-server/src/config.rs: what a relay that starts was configured with.
use mathlib.Core.Path.{sym}
use tunely.Prelude.{
  ap, ℕ, ◌≡◌, ◌≤◌, refl, true, false, Option, none, some, List, [], ◌∷◌, is_empty, get_or_else, All,
  arith, Bool-cases, Option-cases, inl, inr,
}
use tunely.Prelude.Bytes.{Text, codes, contains, text_eq, text_eq_refl}
use tunely.Prelude.Split.{trim, split_commas}
use tunely.Relay.State.{new, validate_token}
use tunely.Relay.Config.{
  Config, ResolvedConfig, FileConfig, Files, Result, ok, err, empty_token, insert_token,
  normalize_onto, normalize_token_list, parse_auth_tokens, validate_resolved, file_tokens,
  apply_file, apply_arguments, from_file, resolve, load_file_config, and_then, default_config,
}

pub ok-injective {ℓ} : {A : Type ℓ} {a b : A} → ok a ≡ ok b → a ≡ b
ok-injective e = cc

-- A token that is not empty.
abbrev pub IsToken : Text → Type 0
IsToken t = is_empty t ≡ false

insert_token-All :
    (t : Text) (out : List Text) → IsToken t → All IsToken out → All IsToken (insert_token t out)
unfolding insert_token
insert_token-All t out good all = elim (Bool-cases (contains out t)) [
  | inl there ↦ rw there all
  | inr absent ↦ rw absent (good, all)
]

normalize_onto-All :
    (tokens out set : List Text)
    → All IsToken out
    → normalize_onto out tokens ≡ ok set
    → All IsToken set
unfolding normalize_onto
normalize_onto-All [] out set good e = rw (ok-injective e) at good
normalize_onto-All (token ∷ tokens) out set good e = elim (Bool-cases (is_empty (trim token))) [
  | inl blank ↦ absurd (let bad : err empty_token ≡ ok set = rw blank at e in cc bad)
  | inr good_token ↦
      normalize_onto-All tokens (insert_token (trim token) out) set
        (insert_token-All (trim token) out good_token good) (rw good_token at e)
]

pub validate_resolved-ok :
    (config r : ResolvedConfig)
    → validate_resolved config ≡ ok r
    → (config ≡ r)
      × (is_empty (trim config.listen) ≡ false)
      × (1 ≤ config.request_timeout_secs)
      × (is_empty config.auth_tokens ≡ false)
unfolding validate_resolved
validate_resolved-ok config r e = ground arith

pub and_then-ok {ℓ κ} :
    {A : Type ℓ} {B : Type κ} (r : Result A) (f : A → Result B) (b : B)
    → and_then r f ≡ ok b
    → (a : A) × (r ≡ ok a) × (f a ≡ ok b)
and_then-ok (ok a) f b e = (a, refl, e)
and_then-ok (err x) f b e = absurd (cc e)

file_tokens-All :
    (tokens : Option (List Text)) (before set : List Text)
    → All IsToken before
    → file_tokens tokens before ≡ ok set
    → All IsToken set
unfolding file_tokens normalize_token_list
file_tokens-All none before set good e = rw (ok-injective e) at good
file_tokens-All (some tokens) before set good e = normalize_onto-All tokens [] set tt e

from_file-All :
    (files : Files) (path : Option Text) (r : ResolvedConfig)
    → from_file files path ≡ ok r
    → All IsToken r.auth_tokens
unfolding from_file apply_file
from_file-All files none r e =
    rw (sym (ap (λ (c : ResolvedConfig). c.auth_tokens) (ok-injective e))) tt
from_file-All files (some path) r e =
    let (file_cfg, loaded, applied) = and_then-ok (load_file_config files path) _ r e in
    let (tokens, read, made) = and_then-ok (file_tokens file_cfg.auth_tokens []) _ r applied in
    rw (sym (ap (λ (c : ResolvedConfig). c.auth_tokens) (ok-injective made)))
      (file_tokens-All file_cfg.auth_tokens [] tokens tt read)

-- The tokens of the command line were read by `parse_auth_tokens`, as its `value_parser` says.
abbrev pub IsParsed : Config → Type 0
IsParsed config =
    (tokens : List Text)
    → config.auth_tokens ≡ some tokens
    → (raw : Text) × (parse_auth_tokens raw ≡ ok tokens)

parse_auth_tokens-All :
    (raw : Text) (set : List Text) → parse_auth_tokens raw ≡ ok set → All IsToken set
unfolding parse_auth_tokens normalize_token_list
parse_auth_tokens-All raw set e = elim (Bool-cases (is_empty (trim raw))) [
  | inl blank ↦ let nothing : ok [] ≡ ok set = rw blank at e in rw (sym (ok-injective nothing)) tt
  | inr good ↦ normalize_onto-All (split_commas raw) [] set tt (rw good at e)
]

arguments-All :
    (config : Config) (before : ResolvedConfig)
    → IsParsed config
    → All IsToken before.auth_tokens
    → All IsToken (apply_arguments before config).auth_tokens
unfolding apply_arguments
arguments-All config before parsed good = elim (Option-cases config.auth_tokens) [
  | inl nothing ↦ rw nothing good
  | inr (tokens, given) ↦
      let (raw, read) = parsed tokens given in rw given (parse_auth_tokens-All raw tokens read)
]

contains-nil : (tokens : List Text) → All IsToken tokens → contains tokens [] ≡ false
unfolding text_eq
contains-nil [] good = refl
contains-nil ([] ∷ tokens) good = absurd (let bad : true ≡ false = good.0 in cc bad)
contains-nil ((c ∷ t) ∷ tokens) good = contains-nil tokens good.1

-- Whom a relay with such a set of tokens admits.
tokens_usable :
    (tokens : List Text) (secs : ℕ)
    → All IsToken tokens
    → is_empty tokens ≡ false
    → (validate_token (new tokens secs) [] ≡ false)
      × ((t : Text) × (validate_token (new tokens secs) t ≡ true))
unfolding validate_token new
tokens_usable [] secs good some_token = absurd (cc some_token)
tokens_usable (t ∷ tokens) secs good some_token =
    (contains-nil (t ∷ tokens) good, (t, rw (text_eq_refl t) refl))

-- A relay starts with a configuration that works, if the command line's tokens were read by its
-- parser: the address is not blank, the timeout is at least one second, some agent's token is
-- accepted, and an empty token never is.
pub resolve_usable :
    (files : Files) (config : Config) (r : ResolvedConfig)
    → IsParsed config
    → resolve files config ≡ ok r
    → (is_empty (trim r.listen) ≡ false)
      × (1 ≤ r.request_timeout_secs)
      × (validate_token (new r.auth_tokens r.request_timeout_secs) [] ≡ false)
      × ((t : Text) × (validate_token (new r.auth_tokens r.request_timeout_secs) t ≡ true))
unfolding resolve
resolve_usable files config r parsed e =
    let (before, read, valid) = and_then-ok (from_file files config.config) _ r e in
    let (same, address, timeout, tokens) =
      validate_resolved-ok (apply_arguments before config) r valid in
    let good = arguments-All config before parsed (from_file-All files config.config before read) in
    let (nobody, somebody) =
      tokens_usable (apply_arguments before config).auth_tokens
        (apply_arguments before config).request_timeout_secs good tokens in
    rw (sym same) (address, timeout, nobody, somebody)

-- What the relay uses comes from its arguments first, then from the file, and then from the
-- defaults, if it is given a file that can be read and starts; the tokens of the arguments replace
-- those of the file.
pub resolve_precedence :
    (files : Files) (config : Config) (path : Text) (file_cfg : FileConfig) (r : ResolvedConfig)
    → config.config ≡ some path
    → load_file_config files path ≡ ok file_cfg
    → resolve files config ≡ ok r
    → (r.listen ≡ get_or_else config.listen (get_or_else file_cfg.listen (codes "0.0.0.0:8080")))
      × (r.request_timeout_secs
          ≡ get_or_else config.request_timeout_secs (get_or_else file_cfg.request_timeout_secs 60))
      × ((tokens : List Text) × (file_tokens file_cfg.auth_tokens [] ≡ ok tokens)
          × (r.auth_tokens ≡ get_or_else config.auth_tokens tokens))
unfolding resolve from_file apply_file apply_arguments
resolve_precedence files config path file_cfg r given loaded e =
    let (before, read, valid) = and_then-ok (from_file files config.config) _ r e in
    let same = (validate_resolved-ok (apply_arguments before config) r valid).0 in
    let applied : apply_file default_config file_cfg ≡ ok before =
      rw loaded at (rw given at read) in
    let (tokens, listed, made) =
      and_then-ok (file_tokens file_cfg.auth_tokens []) _ before applied in
    rw (sym same) (rw (sym (ok-injective made)) (refl, refl, (tokens, listed, refl)))
