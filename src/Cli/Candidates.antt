-- ===== src/Cli/Candidates.antt =====
-- crates/tunely/src/main.rs: which executable is run.
use mathlib.Core.Path.{subst, sym}
use tunely.Prelude.{
  ℕ, ◌≡◌, refl, Bool, true, Option, none, some, List, [], ◌∷◌, ◌++◌, false, is_empty, All, ◌⊎◌, inl,
  inr, ap,
}
use tunely.Prelude.Bytes.{Text}
use tunely.Cli.{
  OsString, Target, Spawn, exited, not_found, failed, Outcome, code, spawn_failed,
  executable_missing, no_current_exe, status_to_code, run_candidates, candidate_commands,
  run_target,
}

-- What a candidate settles.
abbrev pub Settles : Spawn → Outcome → Type 0
Settles (exited status) o = o ≡ code (status_to_code status)
Settles not_found o = ⊥
Settles failed o = o ≡ spawn_failed

-- What running the candidates in order gives.
abbrev pub FirstFound : (OsString → Spawn) → List OsString → Outcome → Type 0
FirstFound spawn candidates o =
    ((front : List OsString) × (rest : List OsString) × (found : OsString) × (candidates
        ≡ front ++ (found ∷ rest))
      × All (λ c. spawn c ≡ not_found) front
      × Settles (spawn found) o)
    ⊎ (All (λ c. spawn c ≡ not_found) candidates × (o ≡ executable_missing))

Spawn-cases :
    (x : Spawn) → ((status : Option ℕ) × (x ≡ exited status)) ⊎ (x ≡ not_found) ⊎ (x ≡ failed)
Spawn-cases (exited status) = inl (status, refl)
Spawn-cases not_found = inr (inl refl)
Spawn-cases failed = inr (inr refl)

FirstFound-later :
    (spawn : OsString → Spawn) (c : OsString) (cs : List OsString) (o : Outcome)
    → spawn c ≡ not_found
    → FirstFound spawn cs o
    → FirstFound spawn (c ∷ cs) o
FirstFound-later spawn c cs o missing (inl (front, rest, found, split, all, settles)) =
    inl (c ∷ front, rest, found, ap (λ xs. c ∷ xs) split, (missing, all), settles)
FirstFound-later spawn c cs o missing (inr (all, none_found)) = inr ((missing, all), none_found)

run_candidates-FirstFound :
    (spawn : OsString → Spawn) (cs : List OsString)
    → FirstFound spawn cs (run_candidates spawn true cs)
unfolding run_candidates
run_candidates-FirstFound spawn [] = inr (tt, refl)
run_candidates-FirstFound spawn (c ∷ cs) = elim (Spawn-cases (spawn c)) [
  | inl (status, e) ↦ inl ([], cs, c, refl, tt, rw (e, run_candidates) refl)
  | inr (inl e) ↦
      let next : run_candidates spawn true (c ∷ cs) ≡ run_candidates spawn true cs =
        rw (e, run_candidates) refl in
      subst (FirstFound spawn (c ∷ cs)) (sym next) (
        FirstFound-later spawn c cs (run_candidates spawn true cs) e
          (run_candidates-FirstFound spawn cs))
  | inr (inr e) ↦ inl ([], cs, c, refl, tt, rw (e, run_candidates) refl)
]

-- The first candidate that exists decides: all before it were not found, and the program ends with
-- its exit code, or 1 if it has none, or with the error that kept it from starting; only if every
-- candidate is missing does the program say so. There always is a candidate, unless the path of the
-- running executable is not known, which is an error of its own before anything is started.
pub run_target-FirstFound :
    (spawn : OsString → Spawn) (join : Text → Text → OsString) (windows : Bool)
    (current : Option (Option Text)) (target : Target)
    → ((current ≡ none) × (run_target spawn join windows current target ≡ no_current_exe))
      ⊎ ((candidates : List OsString) × (candidate_commands join windows current target
            ≡ some candidates)
          × (is_empty candidates ≡ false)
          × FirstFound spawn candidates (run_target spawn join windows current target))
unfolding run_target run_candidates candidate_commands
run_target-FirstFound spawn join windows none target = inl (refl, refl)
run_target-FirstFound spawn join windows (some none) target =
    inr (_, refl, refl, run_candidates-FirstFound spawn _)
run_target-FirstFound spawn join windows (some (some d)) target =
    inr (_, refl, refl, run_candidates-FirstFound spawn _)
