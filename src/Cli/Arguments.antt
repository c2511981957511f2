-- ===== src/Cli/Arguments.antt =====
-- crates/tunely/src/main.rs: the default configuration of the relay.
use tunely.Prelude.{
  ◌≡◌, refl, true, Option, some, List, [], ◌∷◌, ◌++◌, is_empty, Bool-cases, inl, inr,
}
use tunely.Prelude.Bytes.{Text, codes, text_eq_refl}
use tunely.Cli.{OsString, is_config_arg, has_config_arg, ensure_default_relay_config_for_path}

-- The arguments that the relay is started with, if the default configuration exists and the name of
-- the option is valid Unicode: they name a configuration, asking for the default again changes
-- nothing, and the caller's arguments follow unchanged what is put before them, which is nothing
-- exactly if they name a configuration themselves.
pub ensure_default_relay_config_lem :
    (to_str : OsString → Option Text) (args : List OsString) (path : OsString)
    → to_str (codes "--config") ≡ some (codes "--config")
    → let out = ensure_default_relay_config_for_path to_str true args path in
      (has_config_arg to_str out ≡ true)
      × (ensure_default_relay_config_for_path to_str true out path ≡ out)
      × ((front : List OsString) × (out ≡ front ++ args)
          × (is_empty front ≡ has_config_arg to_str args))
unfolding ensure_default_relay_config_for_path
ensure_default_relay_config_lem to_str args path valid =
    let option : is_config_arg to_str (codes "--config") ≡ true =
      rw (valid, is_config_arg) (rw (text_eq_refl (codes "--config")) refl) in
    let named : has_config_arg to_str (codes "--config" ∷ path ∷ args) ≡ true =
      unfold has_config_arg in rw option refl in
    elim (Bool-cases (has_config_arg to_str args)) [
      | inl given ↦ rw given (given, rw given refl, ([], refl, refl))
      | inr absent ↦ rw absent (named, rw named refl, (codes "--config" ∷ path ∷ [], refl, refl))
    ]
