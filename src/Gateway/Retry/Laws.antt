-- ===== src/Gateway/Retry/Laws.antt =====
-- Where the loop of retry.rs stops.
use native.Mathlib.Nat.{pow-suc, mul_assoc}
use ngen_orca.Core.Error.{Error}
use ngen_orca.Gateway.Retry.{
  next_backoff, RetryConfig, duration_limit, retry_loop, retry_with_backoff, returned, Outcome,
  after_call, slept,
}
use ngen_orca.Gateway.Retry.Schedule.{backoff_at, IsLast, is_retryable, waits_from, hinted}
use ngen_orca.Base.{
  ℕ, ◌*◌, ◌≡◌, ◌<◌, Result, suc, ◌≤◌, ◌+◌, zero, arith, refl, some, Bool-cases, ◌⊎◌, true, inr, ◌-◌,
  false, inl, ltb, ◌^◌, err, ◌&&◌, ◌==◌, ok, subst, sym, ==_sound, Option, [],
}

next_backoff-backoff_at :
    (cfg : RetryConfig) (n : ℕ) → next_backoff cfg (backoff_at cfg n) ≡ backoff_at cfg (suc n)
unfolding next_backoff backoff_at
next_backoff-backoff_at cfg zero = refl
next_backoff-backoff_at cfg (suc n) =
    let twice : cfg.initial_backoff * 2 ^ suc (suc n) ≡ cfg.initial_backoff * 2 ^ suc n * 2 =
      rw (pow-suc 2 (suc n)) (sym (mul_assoc cfg.initial_backoff (2 ^ suc n) 2)) in
    omega (arith, twice)

-- Doubling a delay of the configuration does not overflow.
abbrev pub Doubles : RetryConfig → Type 0
Doubles cfg = (cfg.initial_backoff * 2 < duration_limit) × (cfg.max_backoff * 2 < duration_limit)

backoff_at-Doubles :
    (cfg : RetryConfig) (n : ℕ) → Doubles cfg → backoff_at cfg n * 2 < duration_limit
unfolding backoff_at
backoff_at-Doubles cfg zero (a, b) = a
backoff_at-Doubles cfg (suc n) (a, b) = omega (arith, a, b)

module _ {ℓ} {A : Type ℓ} (cfg : RetryConfig) (attempt backoff : ℕ)
    (rest : Option (Outcome A)) where
  after_call-final :
      (r : Result Error A)
      → (is_retryable r && ltb attempt cfg.max_retries) ≡ false
      → after_call cfg attempt backoff rest r ≡ some (returned r [])
  unfolding after_call is_retryable
  after_call-final (err e) final = rw final refl
  after_call-final (ok a) final = refl

  after_call-again :
      (r : Result Error A)
      → is_retryable r ≡ true
      → attempt < cfg.max_retries
      → backoff * 2 < duration_limit
      → after_call cfg attempt backoff rest r ≡ slept (hinted cfg backoff r) rest
  unfolding after_call is_retryable hinted
  after_call-again (err e) retry lt small =
      let less : ltb attempt cfg.max_retries ≡ true = ground arith in
      let fits : ltb (backoff * 2) duration_limit ≡ true = ground arith in
      rw (retry, less, fits) refl
  after_call-again (ok a) retry lt small = absurd cc

module _ {ℓ} {A : Type ℓ} (cfg : RetryConfig) (operation : ℕ → Result Error A) where
  record Ends (fuel attempt : ℕ) : Type ℓ where
    last : ℕ
    after : attempt ≤ last
    is_last : IsLast cfg operation attempt last
    result :
        retry_loop fuel cfg operation attempt (backoff_at cfg attempt)
        ≡ some (returned (operation last) (waits_from cfg operation attempt (last - attempt)))

  settled-Ends :
      (fuel attempt : ℕ)
      → attempt ≤ cfg.max_retries
      → (attempt ≡ cfg.max_retries) ⊎ (is_retryable (operation attempt) ≡ false)
      → Ends (suc fuel) attempt
  unfolding retry_loop is_retryable waits_from
  settled-Ends fuel attempt le settled = record {
    last = attempt;
    after = omega arith;
    is_last = record {
      within = le;
      repeated = λ i a b. absurd (omega (arith, a, b));
      settled = settled;
    };
    result =
        let none_left : attempt - attempt ≡ 0 = omega arith in
        rw none_left (
          after_call-final cfg attempt (backoff_at cfg attempt) _ (operation attempt)
            (ground arith));
  }

  repeated-Ends :
      (fuel attempt : ℕ)
      → Doubles cfg
      → attempt < cfg.max_retries
      → is_retryable (operation attempt) ≡ true
      → Ends fuel (suc attempt)
      → Ends (suc fuel) attempt
  unfolding retry_loop is_retryable waits_from
  repeated-Ends fuel attempt small lt retry ends = record {
    last = ends.last;
    after = omega (arith, ends.after);
    is_last = record {
      within = ends.is_last.within;
      repeated = λ i from to. elim (Bool-cases (i == attempt)) [
        | inl e ↦ subst (λ j. is_retryable (operation j) ≡ true) (sym (==_sound e)) retry
        | inr e ↦ ends.is_last.repeated i (ground arith) to
      ];
      settled = ends.is_last.settled;
    };
    result =
        let count : ends.last - attempt ≡ suc (ends.last - suc attempt) =
          omega (arith, ends.after) in
        let again =
          after_call-again cfg attempt (backoff_at cfg attempt)
            (retry_loop fuel cfg operation (suc attempt) (backoff_at cfg (suc attempt)))
            (operation attempt) retry lt (backoff_at-Doubles cfg attempt small) in
        rw (next_backoff-backoff_at cfg attempt, again, ends.result, count) refl;
  }

  retry_loop-Ends :
      (fuel attempt : ℕ)
      → Doubles cfg
      → attempt + fuel ≡ suc cfg.max_retries
      → attempt ≤ cfg.max_retries
      → Ends fuel attempt
  retry_loop-Ends zero attempt small total le = absurd (omega arith)
  retry_loop-Ends (suc fuel) attempt small total le =
      elim (Bool-cases (is_retryable (operation attempt))) [
        | inr final ↦ settled-Ends fuel attempt le (inr final)
        | inl retry ↦ elim (Bool-cases (ltb attempt cfg.max_retries)) [
          | inr end ↦ settled-Ends fuel attempt le (inl (ground arith))
          | inl more ↦
              repeated-Ends fuel attempt small (ground arith) retry
                (retry_loop-Ends fuel (suc attempt) small (omega arith) (ground arith))
        ]
      ]

  -- Where doubling the delays of the configuration does not overflow: there is a first call that
  -- succeeds, that fails for good, or that is number `max_retries`; all calls before it failed with a
  -- transient error. The run returns what that call returned, after one wait for each call before it:
  -- the delay doubled for every wait and cut at the maximum, or the hint of a rate limit, cut likewise.
  pub retry_with_backoff-IsLast :
      Doubles cfg
      → (last : ℕ) × IsLast cfg operation 0 last
        × (retry_with_backoff cfg operation
            ≡ some (returned (operation last) (waits_from cfg operation 0 last)))
  unfolding retry_with_backoff backoff_at
  retry_with_backoff-IsLast small =
      let ends : Ends (suc cfg.max_retries) 0 =
        retry_loop-Ends (suc cfg.max_retries) 0 small (omega arith) (omega arith) in
      let all : ends.last - 0 ≡ ends.last = omega arith in
      (
        ends.last,
        ends.is_last,
        subst
            (λ n.
              retry_loop (suc cfg.max_retries) cfg operation 0 cfg.initial_backoff
              ≡ some (returned (operation ends.last) (waits_from cfg operation 0 n)))
            all ends.result,
      )
