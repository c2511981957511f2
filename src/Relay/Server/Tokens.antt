-- ===== src/Relay/Server/Tokens.antt =====
-- crates/relay-server/src/config.rs: which tokens a relay has that starts with some arguments and some
-- file.
use tunely.Prelude.{
  ◌≡◌, refl, sym, ◌∙◌, ◌↔◌, ◌⊎◌, inl, inr, Bool, true, false, ◌||◌, Option, none, some, List, [],
  ◌∷◌, map, is_empty, get_or_else, Bool-cases, arith,
}
use mathlib.Core.List.{Mem}
use tunely.Prelude.Bytes.{Text, contains, contains_iff, text_eq, text_eq→eq, text_eq_refl}
use tunely.Prelude.Split.{trim, split_commas}
use tunely.Relay.Config.{
  Config, ResolvedConfig, FileConfig, Files, ok, err, no_file_config, empty_token, insert_token,
  normalize_onto, normalize_token_list, parse_auth_tokens, load_file_config, from_file, file_tokens,
  apply_file, apply_arguments, resolve, default_config,
}
use tunely.Relay.Config.Resolve.{ok-injective, and_then-ok, validate_resolved-ok}

or_false : (b : Bool) → (b || false) ≡ b
or_false true = refl
or_false false = refl

contains-insert_token :
    (asked t : Text) (out : List Text)
    → contains (insert_token t out) asked ≡ (text_eq asked t || contains out asked)
unfolding insert_token
contains-insert_token asked t out = elim (Bool-cases (text_eq asked t)) [
  | inl same ↦ rw (sym (text_eq→eq asked t same)) (elim (Bool-cases (contains out asked)) [
    | inl there ↦ rw (there, text_eq_refl asked) there
    | inr absent ↦ rw (absent, text_eq_refl asked) refl
  ])
  | inr other ↦ elim (Bool-cases (contains out t)) [
    | inl there ↦ rw (there, other) refl
    | inr absent ↦ rw (absent, other) refl
  ]
]

-- The set that is read from a list has the trimmed entries of the list.
contains-normalize_onto :
    (asked : Text) (tokens out set : List Text)
    → normalize_onto out tokens ≡ ok set
    → contains set asked ≡ (contains out asked || contains (map trim tokens) asked)
unfolding normalize_onto
contains-normalize_onto asked [] out set e =
    rw (ok-injective e) (sym (or_false (contains set asked)))
contains-normalize_onto asked (token ∷ tokens) out set e =
    elim (Bool-cases (is_empty (trim token))) [
      | inl blank ↦ absurd (let bad : err empty_token ≡ ok set = rw blank at e in cc bad)
      | inr good ↦
          let rest =
            contains-normalize_onto asked tokens (insert_token (trim token) out) set
              (rw good at e) in
          let here = contains-insert_token asked (trim token) out in ground (arith, rest, here)
    ]

contains-normalize_token_list :
    (asked : Text) (tokens set : List Text)
    → normalize_token_list tokens ≡ ok set
    → contains set asked ≡ contains (map trim tokens) asked
unfolding normalize_token_list
contains-normalize_token_list asked tokens set e = contains-normalize_onto asked tokens [] set e

-- What the file says: there is none, or it was read.
abbrev pub FileRead : Files → Config → FileConfig → Type 0
FileRead files config file_cfg =
    ((config.config ≡ none) × (file_cfg ≡ no_file_config))
    ⊎ ((path : Text) × (config.config ≡ some path) × (load_file_config files path ≡ ok file_cfg))

-- What the command line says of the tokens: nothing, or a text that `parse_auth_tokens` read.
abbrev pub ArgumentsRead : Config → Option Text → Type 0
ArgumentsRead config given =
    ((config.auth_tokens ≡ none) × (given ≡ none))
    ⊎ ((raw : Text) × (tokens : List Text) × (given ≡ some raw)
        × (config.auth_tokens ≡ some tokens)
        × (parse_auth_tokens raw ≡ ok tokens))

-- The tokens as they are written: those of the command line, or else those of the file.
unfoldable pub configured : Option Text → FileConfig → List Text
configured (some raw) file_cfg = map trim (split_commas raw)
configured none file_cfg = map trim (get_or_else file_cfg.auth_tokens [])

contains-file_tokens :
    (asked : Text) (given : Option (List Text)) (tokens : List Text)
    → file_tokens given [] ≡ ok tokens
    → contains tokens asked ≡ contains (map trim (get_or_else given [])) asked
unfolding file_tokens
contains-file_tokens asked none tokens e = rw (sym (ok-injective e)) refl
contains-file_tokens asked (some given) tokens e =
    contains-normalize_token_list asked given tokens e

contains-from_file :
    (files : Files) (config : Config) (file_cfg : FileConfig) (before : ResolvedConfig)
    (asked : Text)
    → FileRead files config file_cfg
    → from_file files config.config ≡ ok before
    → contains before.auth_tokens asked ≡ contains (configured none file_cfg) asked
unfolding from_file configured apply_file
contains-from_file files config file_cfg before asked (inl (no_file, same)) e =
    let made : ok default_config ≡ ok before = rw no_file at e in
    rw (sym (ok-injective made), same) refl
contains-from_file files config file_cfg before asked (inr (path, there, loaded)) e =
    let applied : apply_file default_config file_cfg ≡ ok before = rw loaded at (rw there at e) in
    let (tokens, read, made) = and_then-ok (file_tokens file_cfg.auth_tokens []) _ before applied in
    rw (sym (ok-injective made)) (contains-file_tokens asked file_cfg.auth_tokens tokens read)

contains-parse_auth_tokens :
    (asked raw : Text) (tokens : List Text)
    → parse_auth_tokens raw ≡ ok tokens
    → is_empty tokens ≡ false
    → contains tokens asked ≡ contains (map trim (split_commas raw)) asked
unfolding parse_auth_tokens
contains-parse_auth_tokens asked raw tokens e some_token = elim (Bool-cases (is_empty (trim raw))) [
  | inl blank ↦
      let nothing : ok [] ≡ ok tokens = rw blank at e in
      let bad : true ≡ false = rw (sym (ok-injective nothing)) at some_token in cc bad
  | inr good ↦ contains-normalize_token_list asked (split_commas raw) tokens (rw good at e)
]

-- A token is among those the relay started with exactly if it is written, up to white space around it,
-- on the command line, or in the file if the command line has none.
contains-resolve :
    (files : Files) (config : Config) (given : Option Text) (file_cfg : FileConfig)
    (r : ResolvedConfig) (asked : Text)
    → ArgumentsRead config given
    → FileRead files config file_cfg
    → resolve files config ≡ ok r
    → contains r.auth_tokens asked ≡ contains (configured given file_cfg) asked
unfolding resolve apply_arguments configured
contains-resolve files config given file_cfg r asked arguments file e =
    let (before, read, valid) = and_then-ok (from_file files config.config) _ r e in
    let (same, _, _, tokens) = validate_resolved-ok (apply_arguments before config) r valid in
    let of_file = contains-from_file files config file_cfg before asked file read in
    rw (sym same) (elim arguments [
      | inl (none_there, none_given) ↦ rw (none_there, none_given) of_file
      | inr (raw, set, raw_given, there, parsed) ↦
          rw (there, raw_given)
            (contains-parse_auth_tokens asked raw set parsed (rw there at tokens))
    ])

pub Mem-resolve :
    (files : Files) (config : Config) (given : Option Text) (file_cfg : FileConfig)
    (r : ResolvedConfig) (asked : Text)
    → ArgumentsRead config given
    → FileRead files config file_cfg
    → resolve files config ≡ ok r
    → Mem asked r.auth_tokens ↔ Mem asked (configured given file_cfg)
Mem-resolve files config given file_cfg r asked arguments file e =
    let same = contains-resolve files config given file_cfg r asked arguments file e in
    let mine = contains_iff r.auth_tokens asked in
    let written = contains_iff (configured given file_cfg) asked in
    (λ m. written.0 (sym same ∙ mine.1 m), λ m. mine.0 (same ∙ written.1 m))
