-- ===== src/Cli/Examples.antt =====
-- The command line of crates/tunely/src/main.rs at concrete values.
use tunely.Prelude.{
  ◌≡◌, ◌++◌, ◌⊎◌, refl, true, false, none, some, List, is_empty, [], ◌∷◌, if◌then◌else◌,
}
use tunely.Prelude.Bytes.{Text, codes, text_eq, strip_prefix}
use tunely.Cli.{
  OsString, Target, Spawn, exited, not_found, code, no_current_exe, is_config_arg, has_config_arg,
  candidate_commands, run_candidates, run_target, bin_name, status_to_code,
}
use tunely.Cli.Candidates.{FirstFound, run_target-FirstFound}

detect_config_arg : has_config_arg (λ s. some s) (codes "--config=/tmp/x.yaml" ∷ []) ≡ true
unfolding has_config_arg is_config_arg text_eq strip_prefix
detect_config_arg = refl

abbrev join : Text → Text → OsString
join dir name = dir ++ codes "/" ++ name

-- Only the executable under /opt/tunely exists.
abbrev spawn : OsString → Spawn
spawn c = if text_eq c (codes "/opt/tunely/agent") then exited (some 3) else not_found

run_target_test : run_target spawn join false (some (some (codes "/usr/bin"))) Target.agent ≡ code 3
unfolding run_target run_candidates candidate_commands bin_name status_to_code text_eq
run_target_test = refl

unknown_path : run_target spawn join false none Target.agent ≡ no_current_exe
unfolding run_target candidate_commands
unknown_path = refl

run_target-FirstFound_example :
    ((some (some (codes "/usr/bin")) ≡ none)
      × (run_target spawn join false (some (some (codes "/usr/bin"))) Target.agent
          ≡ no_current_exe))
    ⊎ ((candidates : List OsString) × (candidate_commands join false
            (some (some (codes "/usr/bin")))
            Target.agent
          ≡ some candidates)
        × (is_empty candidates ≡ false)
        × FirstFound spawn candidates
            (run_target spawn join false (some (some (codes "/usr/bin"))) Target.agent))
run_target-FirstFound_example =
    run_target-FirstFound spawn join false (some (some (codes "/usr/bin"))) Target.agent
