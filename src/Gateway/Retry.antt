-- ===== src/Gateway/Retry.antt =====
-- ngenorca-gateway/src/providers/retry.rs. A duration is a number of nanoseconds. The operation is a
-- function from the number of a call to what that call returns; the waits of the loop are listed. The
-- product `backoff * 2` panics when it does not fit a `Duration`.
mod Schedule
pub mod Laws
mod Tests
use ngen_orca.Core.Error.{Error, is_transient, rate_limited}
use ngen_orca.Base.{
  ℕ, Result, ◌^◌, min, Option, List, ◌*◌, some, none, suc, ◌∷◌, ok, [], err, if◌then◌else◌, ◌&&◌,
  ltb, zero,
}
use ngen_orca.Core.Error.{is_transient, rate_limited}

pub record RetryConfig : Type 0 where
  pub max_retries : ℕ
  pub initial_backoff : ℕ
  pub max_backoff : ℕ

abbrev default_max_retries : ℕ
default_max_retries = 3

abbrev initial_backoff_default : ℕ
initial_backoff_default = 500000000

abbrev max_backoff_default : ℕ
max_backoff_default = 10000000000

-- `RetryConfig::default`.
unfoldable pub default_config : RetryConfig
default_config = record {
  max_retries = default_max_retries;
  initial_backoff = initial_backoff_default;
  max_backoff = max_backoff_default;
}

-- What a run comes to: the answer of the last call and the waits before it, or a panic.
pub data Outcome {ℓ} (A : Type ℓ) : Type ℓ where
  returned : Result Error A → List ℕ → Outcome A
  panicked : Outcome A

-- The first duration that a `Duration` cannot hold.
abbrev pub duration_limit : ℕ
duration_limit = 2 ^ 64 * 1000000000

-- How long to sleep after an error.
unfoldable pub wait_after : RetryConfig → ℕ → Error → ℕ
wait_after cfg backoff (rate_limited (some retry_after)) = min retry_after cfg.max_backoff
wait_after cfg backoff _ = backoff

unfoldable pub next_backoff : RetryConfig → ℕ → ℕ
next_backoff cfg backoff = min (backoff * 2) cfg.max_backoff

module _ {ℓ} {A : Type ℓ} where
  abbrev pub slept : ℕ → Option (Outcome A) → Option (Outcome A)
  slept wait none = none
  slept wait (some (returned r waits)) = some (returned r (wait ∷ waits))
  slept wait (some panicked) = some panicked

  -- The match on what a call returned; `rest` is what the next turn of the loop comes to.
  unfoldable pub after_call :
      RetryConfig → ℕ → ℕ → Option (Outcome A) → Result Error A → Option (Outcome A)
  after_call cfg attempt backoff rest (ok a) = some (returned (ok a) [])
  after_call cfg attempt backoff rest (err e) =
      if is_transient e && ltb attempt cfg.max_retries
      then (if ltb (backoff * 2) duration_limit
          then slept (wait_after cfg backoff e) rest
          else some panicked)
      else some (returned (err e) [])

  -- The loop, on fuel: `none` is out of fuel.
  unfoldable pub retry_loop : ℕ → RetryConfig → (ℕ → Result Error A) → ℕ → ℕ → Option (Outcome A)
  retry_loop zero cfg operation attempt backoff = none
  retry_loop (suc fuel) cfg operation attempt backoff =
      let rest = retry_loop fuel cfg operation (suc attempt) (next_backoff cfg backoff) in
      after_call cfg attempt backoff rest (operation attempt)

  -- One call more than there are retries is enough fuel.
  unfoldable pub retry_with_backoff : RetryConfig → (ℕ → Result Error A) → Option (Outcome A)
  unfolding retry_loop
  retry_with_backoff cfg operation =
      retry_loop (suc cfg.max_retries) cfg operation 0 cfg.initial_backoff
