-- ===== src/Gateway/Retry/Schedule.antt =====
-- Which call of the operation is the last, and how long the loop sleeps before it.
use ngen_orca.Core.Error.{Error, is_transient}
use ngen_orca.Base.{
  Result, Bool, ℕ, err, suc, List, ◌≤◌, ok, min, [], ◌<◌, false, ◌*◌, ◌∷◌, ◌≡◌, ◌^◌, zero, true,
  ◌⊎◌,
}
use ngen_orca.Gateway.Retry.{RetryConfig, wait_after}

unfoldable pub is_retryable {ℓ} : {A : Type ℓ} → Result Error A → Bool
is_retryable (err e) = is_transient e
is_retryable (ok a) = false

-- The delay before the hint of a rate limit: doubled after every wait, then cut at the maximum.
unfoldable pub backoff_at : RetryConfig → ℕ → ℕ
backoff_at cfg zero = cfg.initial_backoff
backoff_at cfg (suc n) = min (cfg.initial_backoff * 2 ^ suc n) cfg.max_backoff

unfoldable pub hinted {ℓ} : {A : Type ℓ} → RetryConfig → ℕ → Result Error A → ℕ
unfolding wait_after
hinted cfg delay (err e) = wait_after cfg delay e
hinted cfg delay (ok a) = delay

-- The waits after the calls number `first` to `first + n - 1`.
unfoldable pub waits_from {ℓ} : {A : Type ℓ} → RetryConfig → (ℕ → Result Error A) → ℕ → ℕ → List ℕ
waits_from cfg operation first zero = []
waits_from cfg operation first (suc n) =
    hinted cfg (backoff_at cfg first) (operation first) ∷ waits_from cfg operation (suc first) n

-- `last` is the first call from `first` on that may not be repeated.
pub record IsLast {ℓ} {A : Type ℓ} (cfg : RetryConfig) (operation : ℕ → Result Error A)
    (first last : ℕ) : Type 0 where
  pub within : last ≤ cfg.max_retries
  pub repeated : (i : ℕ) → first ≤ i → i < last → is_retryable (operation i) ≡ true
  pub settled : (last ≡ cfg.max_retries) ⊎ (is_retryable (operation last) ≡ false)
