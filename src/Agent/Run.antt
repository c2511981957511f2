-- ===== src/Agent/Run.antt =====
-- crates/agent/src/relay_client.rs: `run`, which connects again whenever a connection ends, with the
-- whole of `run_once` in its rounds.
use mathlib.Core.Path.{subst}
use tunely.Prelude.{
  ℕ, suc, ◌+◌, ◌*◌, ◌^◌, ◌-◌, ◌≤◌, ◌<◌, ◌≡◌, refl, ap, ◌∙◌, Bool, true, false, Option, none, some,
  List, [], ◌∷◌, ◌++◌, min, max, length, drop, All, if◌then◌else◌, arith,
}
use tunely.Protocol.Message.{Json}
use tunely.Agent.Events.{Sent}
use tunely.Agent.Handshake.{Config}
use tunely.Agent.RelayClient.{Tables, Spawned}
use tunely.Agent.Connection.{Start, Round, Returned, run_once}
use tunely.Agent.Reconnect.{
  backoff_with_jitter, next_attempt, saturating_pow, saturating_add, IsDelay, backoff-IsDelay,
  pow_bounds,
}

-- One connection: the library's answers at its start, its rounds, and the random part of the wait
-- after it.
pub record Try : Type 0 where
  pub start : Start
  pub rounds : List Round
  pub jitter_ms : ℕ

abbrev pub Connection : Type 0
Connection = Tables × List Sent × List Spawned × Returned

abbrev pub connect : Json → Config → Try → Connection
connect json config t = run_once json config t.start t.rounds

-- The connections from an attempt on, each with the wait after it, unless it is still open.
unfoldable pub run : Json → Config → ℕ → List Try → List (Connection × Option ℕ)
unfolding run_once next_attempt backoff_with_jitter
run json config attempt [] = []
run json config attempt (t ∷ tries) =
    let c = connect json config t in
    let ended = run json config 0 tries in
    let failed = run json config (next_attempt attempt false) tries in
    elim c.3 [
      | none ↦ (c, none) ∷ []
      | some true ↦
          (
            c,
            some (
                backoff_with_jitter (next_attempt attempt true) config.max_backoff_secs
                  t.jitter_ms),
          )
          ∷ ended
      | some false ↦
          (
            c,
            some (
                backoff_with_jitter (next_attempt attempt false) config.max_backoff_secs
                  t.jitter_ms),
          )
          ∷ failed
    ]

-- The connection ends, with an error or without one.
abbrev pub Ends : Json → Config → Bool → Try → Type 0
Ends json config how t = (connect json config t).3 ≡ some how

next_attempt-failed :
    (attempt : ℕ) → attempt < 2 ^ 32 - 1 → next_attempt attempt false ≡ suc attempt
unfolding next_attempt saturating_add
next_attempt-failed attempt few = omega arith

module _ (json : Json) (config : Config) where
  run-failed :
      (attempt : ℕ) (t : Try) (tries : List Try)
      → Ends json config false t
      → run json config attempt (t ∷ tries)
        ≡ (
          connect json config t,
          some (
              backoff_with_jitter (next_attempt attempt false) config.max_backoff_secs t.jitter_ms),
        )
          ∷ run json config (next_attempt attempt false) tries
  unfolding run
  run-failed attempt t tries e = rw (e, run) refl

  run-ended :
      (attempt : ℕ) (t : Try) (tries : List Try)
      → Ends json config true t
      → run json config attempt (t ∷ tries)
        ≡ (connect json config t, some (backoff_with_jitter 0 config.max_backoff_secs t.jitter_ms))
          ∷ run json config 0 tries
  unfolding run next_attempt
  run-ended attempt t tries e = rw (e, run) refl

  -- The attempts are counted.
  run-failures :
      (front rest : List Try) (attempt : ℕ)
      → All (Ends json config false) front
      → attempt + length front ≤ 2 ^ 32 - 1
      → drop (length front) (run json config attempt (front ++ rest))
        ≡ run json config (attempt + length front) rest
  run-failures [] rest attempt fails few = ap (λ a. run json config a rest) (omega arith)
  run-failures (t ∷ front) rest attempt fails few =
      let counted : next_attempt attempt false ≡ suc attempt =
        next_attempt-failed attempt (omega arith) in
      let total : suc attempt + length front ≡ attempt + suc (length front) = omega arith in
      ap (drop (suc (length front))) (run-failed attempt t (front ++ rest) fails.0)
      ∙ ap (λ a. drop (length front) (run json config a (front ++ rest))) counted
      ∙ run-failures front rest (suc attempt) fails.1 (omega arith)
      ∙ ap (λ a. run json config a rest) total

wait-lem :
    (k max_backoff_secs jitter_ms : ℕ)
    → backoff_with_jitter k max_backoff_secs jitter_ms
      ≡ max (min (2 ^ min k 6) max_backoff_secs) 1 * 1000 + jitter_ms
unfolding backoff_with_jitter saturating_pow
wait-lem k max_backoff_secs jitter_ms =
    let (_, small) = pow_bounds (min k 6) (omega arith) in
    let kept : min (2 ^ min k 6) (2 ^ 64 - 1) ≡ 2 ^ min k 6 = omega (arith, small) in rw kept refl

-- After some connections that all failed, the next one ends. The agent then waits, in milliseconds,
-- 1000 times 2 to the power of the number of failures in a row, at most 2 to the power of 6, the
-- configured limit if it is less, but at least 1, and the random part; a connection that ended without
-- an error counts as no failure. So it waits at least a second, and less than half a second more than
-- the limit, if the random part is less than 500. Then it connects again, with the failures counted on,
-- if they are fewer than 2 ^ 32 - 1.
pub run_backs_off :
    (json : Json) (config : Config) (front rest : List Try) (t : Try) (how : Bool)
    → All (Ends json config false) front
    → Ends json config how t
    → length front < 2 ^ 32 - 1
    → t.jitter_ms < 500
    → let failures = if how then 0 else suc (length front) in
      let wait = max (min (2 ^ min failures 6) config.max_backoff_secs) 1 * 1000 + t.jitter_ms in
      (drop (length front) (run json config 0 (front ++ (t ∷ rest)))
        ≡ (connect json config t, some wait) ∷ run json config failures rest)
      × IsDelay config.max_backoff_secs wait
run_backs_off json config front rest t true fails ends few small =
    let limit = config.max_backoff_secs in
    let bounds = backoff-IsDelay 0 limit t.jitter_ms small in
    (
      run-failures json config front (t ∷ rest) 0 fails (omega arith)
          ∙ run-ended json config (0 + length front) t rest ends
          ∙ ap (λ w. (connect json config t, some w) ∷ run json config 0 rest)
              (wait-lem 0 limit t.jitter_ms),
      subst (IsDelay limit) (wait-lem 0 limit t.jitter_ms) bounds,
    )
run_backs_off json config front rest t false fails ends few small =
    let limit = config.max_backoff_secs in
    let n = suc (length front) in
    let bounds = backoff-IsDelay n limit t.jitter_ms small in
    let from_zero : 0 + length front ≡ length front = omega arith in
    let counted : next_attempt (length front) false ≡ n = next_attempt-failed (length front) few in
    (
      run-failures json config front (t ∷ rest) 0 fails (omega arith)
          ∙ ap (λ a. run json config a (t ∷ rest)) from_zero
          ∙ run-failed json config (length front) t rest ends
          ∙ ap
              (λ a.
                (connect json config t, some (backoff_with_jitter a limit t.jitter_ms))
                ∷ run json config a rest)
              counted
          ∙ ap (λ w. (connect json config t, some w) ∷ run json config n rest)
              (wait-lem n limit t.jitter_ms),
      subst (IsDelay limit) (wait-lem n limit t.jitter_ms) bounds,
    )
