-- ===== src/Cli/Installed.antt =====
-- crates/tunely/src/main.rs: where the help looks for an executable.
use tunely.Prelude.{
  ◌≡◌, refl, Bool, Option, none, some, List, [], ◌∷◌, ◌++◌, map, if◌then◌else◌, arith,
}
use tunely.Prelude.Bytes.{Text, codes}
use tunely.Cli.{OsString, Target, bin_name, find_in_dirs, find_in_path, detect_installed_path}

-- The first file among some places.
abbrev pub first_file : (OsString → Bool) → List OsString → Option OsString
first_file is_file [] = none
first_file is_file (p ∷ ps) = if is_file p then some p else first_file is_file ps

-- Beside the running program, under /opt/tunely, and in each directory of `PATH`.
abbrev pub places :
    (Text → Text → OsString) → Option Text → Option (List Text) → Text → List OsString
places join dir path_var name =
    (elim dir [ none ↦ [] | some d ↦ join d name ∷ [] ])
    ++ (join (codes "/opt/tunely") name
        ∷ elim path_var [ none ↦ [] | some dirs ↦ map (λ d. join d name) dirs ])

find_in_dirs-first_file :
    (is_file : OsString → Bool) (join : Text → Text → OsString) (dirs : List Text) (name : Text)
    → find_in_dirs is_file join dirs name ≡ first_file is_file (map (λ d. join d name) dirs)
unfolding find_in_dirs
find_in_dirs-first_file is_file join [] name = refl
find_in_dirs-first_file is_file join (d ∷ dirs) name =
    ground (arith, find_in_dirs-first_file is_file join dirs name)

-- The help finds an executable exactly as the first file among these places.
pub detect_installed_path-first_file :
    (is_file : OsString → Bool) (join : Text → Text → OsString) (windows : Bool) (dir : Option Text)
    (path_var : Option (List Text)) (target : Target)
    → detect_installed_path is_file join windows dir path_var target
      ≡ first_file is_file (places join dir path_var (bin_name windows target))
unfolding detect_installed_path find_in_path
detect_installed_path-first_file is_file join windows none none target = ground arith
detect_installed_path-first_file is_file join windows (some d) none target = ground arith
detect_installed_path-first_file is_file join windows none (some dirs) target =
    ground (arith, find_in_dirs-first_file is_file join dirs (bin_name windows target))
detect_installed_path-first_file is_file join windows (some d) (some dirs) target =
    ground (arith, find_in_dirs-first_file is_file join dirs (bin_name windows target))
