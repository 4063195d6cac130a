-- ===== src/Gateway/RateLimit.antt =====
-- ngenorca-gateway/src/rate_limit.rs. An instant is a number of nanoseconds, and `now` is an argument
-- of each call. `t < now - window` is written `t + window < now`, so no instant is negative.
-- The queue of a key is locked from the drain to the push, but `now` is read before.
mod Spec
mod Refinement
pub mod Answers
mod Tests
use ngen_orca.Base.{
  ℕ, suc, ◌+◌, ◌%◌, ◌^◌, Bool, true, false, Option, none, some, List, [], ◌∷◌, ◌++◌, leb, ltb, ◌==◌,
  if◌then◌else◌, length, get_or, Bytes, codes, lookup, insert, text_key, ◌*◌, add64,
}

-- `metrics` is the counter of requests refused, if there is one.
pub record RateLimiter : Type 0 where
  pub buckets : List (Bytes × List ℕ)
  pub max_requests : ℕ
  pub window : ℕ
  pub metrics : Option ℕ

abbrev pub nanos_per_sec : ℕ
nanos_per_sec = 1000000000

unfoldable pub new : ℕ → ℕ → RateLimiter
new max_requests window_secs = record {
  buckets = [];
  max_requests = max_requests;
  window = window_secs * nanos_per_sec;
  metrics = none;
}

unfoldable pub with_metrics : ℕ → ℕ → ℕ → RateLimiter
with_metrics max_requests window_secs counted = record {
  buckets = [];
  max_requests = max_requests;
  window = window_secs * nanos_per_sec;
  metrics = some counted;
}

-- `t < cutoff`.
abbrev pub is_expired : ℕ → ℕ → ℕ → Bool
is_expired window now t = ltb (t + window) now

-- The loop that pops expired timestamps off the front.
unfoldable pub drain : ℕ → ℕ → List ℕ → List ℕ
drain window now [] = []
drain window now (t ∷ queue) = if is_expired window now t then drain window now queue else t ∷ queue

-- The part of `check` on the entry's queue.
unfoldable pub check_queue : ℕ → ℕ → ℕ → List ℕ → Bool × List ℕ
unfolding drain
check_queue max_requests window now queue =
    let live = drain window now queue in
    if leb max_requests (length live % 2 ^ 32) then (false, live) else (true, live ++ now ∷ [])

unfoldable pub check : RateLimiter → Bytes → ℕ → Bool × RateLimiter
unfolding check_queue
check l key now =
    if l.max_requests == 0
    then (true, l)
    else (let (allowed, queue) =
          check_queue l.max_requests l.window now (get_or (lookup key l.buckets) []) in
        (allowed, record l { buckets = insert key queue l.buckets }))

unfoldable pub tracked_keys : RateLimiter → ℕ
tracked_keys l = length l.buckets

-- The caller of a request: `CallerIdentity`, if the auth middleware set it, and its username.
abbrev pub Caller : Type 0
Caller = Option (Option Bytes)

unfoldable pub caller_key : Caller → Bytes
caller_key (some (some name)) = name
caller_key _ = codes "anonymous"

-- `inc_rate_limited` on the metrics, if there are any.
unfoldable pub count_refused : RateLimiter → RateLimiter
count_refused l = record l { metrics = elim l.metrics [ none ↦ none | some n ↦ some (add64 n 1) ] }

-- The request is forwarded (`true`), or answered with 429.
unfoldable pub rate_limit_middleware : RateLimiter → Caller → ℕ → Bool × RateLimiter
unfolding check caller_key count_refused
rate_limit_middleware l caller now =
    let (allowed, l') = check l (caller_key caller) now in
    if allowed then (true, l') else (false, count_refused l')
