-- ===== src/Gateway/RateLimit/Answers.antt =====
-- Runs of requests through `check` of rate_limit.rs.
use ngen_orca.Gateway.RateLimit.{RateLimiter, check}
use ngen_orca.Base.{ℕ, List, Bytes, Bool, ◌∷◌, [], ◌≡◌, ◌≤◌, text_key}
use ngen_orca.Gateway.RateLimit.Spec.{admits, log_request}
use ngen_orca.Gateway.RateLimit.Refinement.{Agrees}

unfoldable pub check_all : RateLimiter → List (Bytes × ℕ) → List Bool
check_all l [] = []
check_all l ((key, now) ∷ requests) = let (b, l') = check l key now in b ∷ check_all l' requests

abbrev pub InOrder : ℕ → List (Bytes × ℕ) → Type 0
InOrder last [] = Unit
InOrder last ((key, now) ∷ requests) = (last ≤ now) × InOrder now requests

-- One request to a limiter that is not disabled: what is answered, and the limiter left.
record Step (l : RateLimiter) (log : List (Bytes × ℕ)) (key : Bytes) (now : ℕ) : Type 0 where
  next : RateLimiter
  checked : check l key now ≡ (admits l.max_requests l.window key now log, next)
  max_same : next.max_requests ≡ l.max_requests
  window_same : next.window ≡ l.window
  agrees : Agrees next (log_request (admits l.max_requests l.window key now log) key now log) now
