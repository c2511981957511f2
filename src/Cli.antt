-- ===== src/Cli.antt =====
-- crates/tunely/src/main.rs: the command line that starts the relay or the agent. The file system
-- and the start of a process are parameters.
pub mod Arguments
pub mod Candidates
pub mod Installed
mod Examples
use tunely.Prelude.{
  ℕ, Bool, true, false, ◌||◌, Option, none, some, List, [], ◌∷◌, ◌++◌, if◌then◌else◌, any, is_some,
  get_or_else,
}
use tunely.Prelude.Bytes.{Text, Bytes, codes, text_eq, strip_prefix}

-- An argument, which need not be UTF-8.
abbrev pub OsString : Type 0
OsString = Bytes

pub data Target : Type 0 where
  relay agent : Target

-- `Target::bin_name`, by `cfg!(windows)`
unfoldable pub bin_name : Bool → Target → Text
bin_name true Target.relay = codes "relay-server.exe"
bin_name true Target.agent = codes "agent.exe"
bin_name false Target.relay = codes "relay-server"
bin_name false Target.agent = codes "agent"

module _ (to_str : OsString → Option Text) where
  -- The test that `has_config_arg` makes of one argument.
  unfoldable pub is_config_arg : OsString → Bool
  is_config_arg arg = elim (to_str arg) [
    | none ↦ false
    | some s ↦ text_eq s (codes "--config") || is_some (strip_prefix (codes "--config=") s)
  ]

  unfoldable pub has_config_arg : List OsString → Bool
  unfolding is_config_arg
  has_config_arg args = any is_config_arg args

  -- With what `config_path.exists()` says.
  unfoldable pub ensure_default_relay_config_for_path :
      Bool → List OsString → OsString → List OsString
  unfolding has_config_arg
  ensure_default_relay_config_for_path config_exists args config_path =
      if has_config_arg args
      then args
      else if config_exists
      then codes "--config" ∷ config_path ∷ args
      else args

-- What `spawn_and_wait` gives: `ExitStatus::code`, or an error that `is_not_found` tells apart.
pub data Spawn : Type 0 where
  exited : Option ℕ → Spawn
  not_found failed : Spawn

pub data Outcome : Type 0 where
  code : ℕ → Outcome
  spawn_failed executable_missing no_candidate no_current_exe : Outcome

unfoldable pub status_to_code : Option ℕ → ℕ
status_to_code status = get_or_else status 1

-- The loop of `run_target` with `last_not_found.is_some()`.
unfoldable pub run_candidates : (OsString → Spawn) → Bool → List OsString → Outcome
unfolding status_to_code
run_candidates spawn true [] = executable_missing
run_candidates spawn false [] = no_candidate
run_candidates spawn missed (candidate ∷ candidates) = elim (spawn candidate) [
  | exited status ↦ code (status_to_code status)
  | not_found ↦ run_candidates spawn true candidates
  | failed ↦ spawn_failed
]

-- With what `current_exe` gives, if it succeeds, and then `parent`; and `Path::join`.
unfoldable pub candidate_commands :
    (Text → Text → OsString) → Bool → Option (Option Text) → Target → Option (List OsString)
unfolding bin_name
candidate_commands join windows none target = none
candidate_commands join windows (some dir) target = some (
    elim dir [ none ↦ [] | some d ↦ join d (bin_name windows target) ∷ [] ]
    ++ (join (codes "/opt/tunely") (bin_name windows target) ∷ bin_name windows target ∷ []))

unfoldable pub run_target :
    (OsString → Spawn) → (Text → Text → OsString) → Bool → Option (Option Text) → Target → Outcome
unfolding run_candidates candidate_commands
run_target spawn join windows current target =
    elim (candidate_commands join windows current target) [
      | none ↦ no_current_exe
      | some candidates ↦ run_candidates spawn false candidates
    ]

module _ (is_file : OsString → Bool) (join : Text → Text → OsString) where
  -- The loop of `find_in_path`.
  unfoldable pub find_in_dirs : List Text → Text → Option OsString
  find_in_dirs [] name = none
  find_in_dirs (dir ∷ dirs) name =
      if is_file (join dir name) then some (join dir name) else find_in_dirs dirs name

  -- With the directories of `PATH`, if it is set.
  unfoldable pub find_in_path : Option (List Text) → Text → Option OsString
  unfolding find_in_dirs
  find_in_path none name = none
  find_in_path (some dirs) name = find_in_dirs dirs name

  -- With what `current_exe` and `parent` give.
  unfoldable pub detect_installed_path :
      Bool → Option Text → Option (List Text) → Target → Option OsString
  unfolding find_in_path bin_name
  detect_installed_path windows dir path_var target =
      let name = bin_name windows target in
      let beside : Option OsString = elim dir [
        | none ↦ none
        | some d ↦ if is_file (join d name) then some (join d name) else none
      ] in
      let elsewhere =
        if is_file (join (codes "/opt/tunely") name)
        then some (join (codes "/opt/tunely") name)
        else find_in_path path_var name in
      elim beside [ some path ↦ some path | none ↦ elsewhere ]

  unfoldable pub install_state_label : Bool → Option Text → Option (List Text) → Target → Text
  unfolding detect_installed_path
  install_state_label windows dir path_var target =
      if is_some (detect_installed_path windows dir path_var target)
      then codes "installed"
      else codes "not installed"

  -- The lines that `print_main_help` prints.
  unfoldable pub main_help : Bool → Option Text → Option (List Text) → List Text
  unfolding install_state_label
  main_help windows dir path_var =
      codes "Tunely unified CLI"
      ∷ []
      ∷ codes "Usage: tunely [COMMAND]"
      ∷ []
      ∷ codes "Commands:"
      ∷ (codes "  relay  Run relay-server ("
          ++ (install_state_label windows dir path_var Target.relay ++ codes ")"))
      ∷ (codes "  agent  Run agent ("
          ++ (install_state_label windows dir path_var Target.agent ++ codes ")"))
      ∷ codes "  help   Print this message or the help of the given subcommand(s)"
      ∷ []
      ∷ codes "Options:"
      ∷ codes "  -h, --help     Print help"
      ∷ codes "  -V, --version  Print version"
      ∷ []

pub data Command : Type 0 where
  relay agent : List OsString → Command
  help : Command

-- What `main` does with a command: it runs an executable with some arguments, or prints the help.
pub data Action : Type 0 where
  run : Target → List OsString → Action
  print_main_help : Action

-- With whether the default configuration exists.
unfoldable pub main : (OsString → Option Text) → Bool → Option Command → Action
unfolding ensure_default_relay_config_for_path
main to_str config_exists (some (Command.relay args)) = run Target.relay (
    ensure_default_relay_config_for_path to_str config_exists args (codes "/etc/tunely/relay.yaml"))
main to_str config_exists (some (Command.agent args)) = run Target.agent args
main to_str config_exists (some help) = print_main_help
main to_str config_exists none = print_main_help
