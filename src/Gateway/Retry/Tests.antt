-- ===== src/Gateway/Retry/Tests.antt =====
-- Runs of the retry loop.
use ngen_orca.Core.Error.{Error, is_transient, rate_limited, io, unauthorized}
use ngen_orca.Base.{ℕ, Result, err, ◌≡◌, [], some, suc, ok, refl, zero, ◌∷◌, arith}
use ngen_orca.Gateway.Retry.{
  RetryConfig, retry_with_backoff, retry_loop, after_call, wait_after, next_backoff, returned,
}
use ngen_orca.Gateway.Retry.Schedule.{IsLast, waits_from}
use ngen_orca.Gateway.Retry.Laws.{retry_with_backoff-IsLast}

-- Two failures that pass, one with a hint, then a value.
abbrev flaky : ℕ → Result Error ℕ
flaky zero = err (io [])
flaky (suc zero) = err (rate_limited (some 7))
flaky (suc (suc n)) = ok n

abbrev short_config : RetryConfig
short_config = record { max_retries = 3; initial_backoff = 2; max_backoff = 5 }

run-flaky : retry_with_backoff short_config flaky ≡ some (returned (ok 0) (2 ∷ 5 ∷ []))
unfolding retry_with_backoff retry_loop after_call is_transient wait_after next_backoff
run-flaky = refl

run-unauthorized :
    retry_with_backoff {A = ℕ} short_config (λ _. err (unauthorized []))
    ≡ some (returned (err (unauthorized [])) [])
unfolding retry_with_backoff retry_loop after_call is_transient wait_after next_backoff
run-unauthorized = refl

retry_with_backoff-IsLast_example :
    (last : ℕ) × IsLast short_config flaky 0 last
    × (retry_with_backoff short_config flaky
        ≡ some (returned (flaky last) (waits_from short_config flaky 0 last)))
retry_with_backoff-IsLast_example =
    retry_with_backoff-IsLast short_config flaky (omega arith, omega arith)
