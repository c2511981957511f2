-- ===== src/Agent/Reconnect.antt =====
-- crates/agent/src/relay_client.rs: the loop of `run`, which reconnects for ever.
use native.Mathlib.Decide.{dec_lt}
use tunely.Prelude.{
  ℕ, zero, suc, ◌+◌, ◌*◌, ◌^◌, ◌-◌, ◌≤◌, ◌<◌, ◌≡◌, Bool, true, false, List, [], ◌∷◌, min, max,
  arith, All,
}

-- `u64::saturating_pow` and `u32::saturating_add`
unfoldable pub saturating_pow : ℕ → ℕ → ℕ
saturating_pow base exponent = min (base ^ exponent) (2 ^ 64 - 1)

unfoldable pub saturating_add : ℕ → ℕ → ℕ
saturating_add a b = min (a + b) (2 ^ 32 - 1)

-- In milliseconds, with the random part as an argument.
unfoldable pub backoff_with_jitter : ℕ → ℕ → ℕ → ℕ
unfolding saturating_pow
backoff_with_jitter attempt max_backoff_secs jitter_ms =
    let exp = saturating_pow 2 (min attempt 6) in
    let base_secs = max (min exp max_backoff_secs) 1 in base_secs * 1000 + jitter_ms

-- One round of `run`: whether `run_once` returned without error, and the random part.
unfoldable pub next_attempt : ℕ → Bool → ℕ
unfolding saturating_add
next_attempt attempt true = 0
next_attempt attempt false = saturating_add attempt 1

-- The delays of `run` over the outcomes of its rounds, from `attempt` on.
unfoldable pub delays : ℕ → ℕ → List (Bool × ℕ) → List ℕ
delays max_backoff_secs attempt [] = []
delays max_backoff_secs attempt ((connected, jitter_ms) ∷ rounds) =
    let attempt' = next_attempt attempt connected in
    backoff_with_jitter attempt' max_backoff_secs jitter_ms
    ∷ delays max_backoff_secs attempt' rounds

pub pow_bounds : (m : ℕ) → m ≤ 6 → (1 ≤ 2 ^ m) × (2 ^ m ≤ 64)
pow_bounds zero h = omega arith
pow_bounds (suc zero) h = omega arith
pow_bounds (suc (suc zero)) h = omega arith
pow_bounds (suc (suc (suc zero))) h = omega arith
pow_bounds (suc (suc (suc (suc zero)))) h = omega arith
pow_bounds (suc (suc (suc (suc (suc zero))))) h = omega arith
pow_bounds (suc (suc (suc (suc (suc (suc zero)))))) h = omega arith
pow_bounds (suc (suc (suc (suc (suc (suc (suc m))))))) h = absurd (omega arith)

-- A delay in milliseconds, for a limit in seconds.
abbrev pub IsDelay : ℕ → ℕ → Type 0
IsDelay max_backoff_secs d = (1000 ≤ d) × (d < max (min 64 max_backoff_secs) 1 * 1000 + 500)

pub backoff-IsDelay :
    (attempt max_backoff_secs jitter_ms : ℕ)
    → jitter_ms < 500
    → IsDelay max_backoff_secs (backoff_with_jitter attempt max_backoff_secs jitter_ms)
unfolding backoff_with_jitter
backoff-IsDelay attempt max_backoff_secs jitter_ms h =
    omega (arith, pow_bounds (min attempt 6) (omega arith))

-- Between two connections the agent always waits at least a second and less than half a second
-- more than the configured limit, which counts as one second if it is 0 and as 64 if it is more,
-- however often it failed before, if the random part is less than 500 milliseconds.
pub delays_bounds :
    (max_backoff_secs attempt : ℕ) (rounds : List (Bool × ℕ))
    → All (λ r. r.1 < 500) rounds
    → All (IsDelay max_backoff_secs) (delays max_backoff_secs attempt rounds)
unfolding delays
delays_bounds max_backoff_secs attempt [] h = tt
delays_bounds max_backoff_secs attempt ((connected, jitter_ms) ∷ rounds) h = (
  backoff-IsDelay (next_attempt attempt connected) max_backoff_secs jitter_ms h.0,
  delays_bounds max_backoff_secs (next_attempt attempt connected) rounds h.1,
)

pow_step : (m : ℕ) → m < 6 → 2 ^ m ≤ 2 ^ suc m
pow_step zero h = omega arith
pow_step (suc zero) h = omega arith
pow_step (suc (suc zero)) h = omega arith
pow_step (suc (suc (suc zero))) h = omega arith
pow_step (suc (suc (suc (suc zero)))) h = omega arith
pow_step (suc (suc (suc (suc (suc zero))))) h = omega arith
pow_step (suc (suc (suc (suc (suc (suc m)))))) h = absurd (omega arith)

pow_min_step : (a : ℕ) → 2 ^ min a 6 ≤ 2 ^ min (suc a) 6
pow_min_step a = elim (dec_lt a 6) [
  | yes small ↦
      let here : min a 6 ≡ a = omega arith in
      let next : min (suc a) 6 ≡ suc a = omega arith in rw (here, next) (pow_step a small)
  | no large ↦
      let here : min a 6 ≡ 6 = omega arith in
      let next : min (suc a) 6 ≡ 6 = omega arith in rw (here, next) (omega arith)
]

-- A failure never shortens the delay, for the same random part, and a connection that ended
-- without an error brings the delay back to one second and the random part.
pub backoff_after :
    (attempt max_backoff_secs jitter_ms : ℕ)
    → attempt < 2 ^ 32 - 1
    → (backoff_with_jitter attempt max_backoff_secs jitter_ms
        ≤ backoff_with_jitter (next_attempt attempt false) max_backoff_secs jitter_ms)
      × (backoff_with_jitter (next_attempt attempt true) max_backoff_secs jitter_ms
          ≡ 1000 + jitter_ms)
unfolding backoff_with_jitter next_attempt
backoff_after attempt max_backoff_secs jitter_ms h =
    let more : min (attempt + 1) (2 ^ 32 - 1) ≡ suc attempt = omega arith in
    (
      rw more (omega (arith, pow_min_step attempt, pow_bounds (min (suc attempt) 6) (omega arith))),
      omega arith,
    )
