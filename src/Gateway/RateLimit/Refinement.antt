-- ===== src/Gateway/RateLimit/Refinement.antt =====
-- The queues of the limiter of rate_limit.rs and the log of the specification.
use ngen_orca.Gateway.RateLimit.{RateLimiter, check_queue, check, drain}
use ngen_orca.Base.{
  Bytes, List, ℕ, get_or, length, Bool, insert, ◌≤◌, lookup, ◌<◌, ◌≡◌, [], ◌^◌, ◌==◌, if◌then◌else◌,
  ◌++◌, text_key, false, true, same, ◌∷◌, leb, arith, ◌%◌, lookup-insert, Bool-cases, inl, subst,
  same_refl, same_sound, inr, length-append, refl, ◌∙◌,
}
use ngen_orca.Gateway.RateLimit.Spec.{
  Ordered, live_count, in_window, length-drain-le, drain-Ordered, Ordered-push, Ordered-later,
  in_window-push, live_count-drain, live_count-push,
}

abbrev queue_of : RateLimiter → Bytes → List ℕ
queue_of l key = get_or (lookup key l.buckets) []

-- What the queues hold at time `last`, in terms of the log.
pub record Agrees (l : RateLimiter) (log : List (Bytes × ℕ)) (last : ℕ) : Type 0 where
  pub ordered : (key : Bytes) → Ordered 0 last (queue_of l key)
  pub counts :
      (key : Bytes) (now : ℕ)
      → last ≤ now
      → live_count l.window now (queue_of l key) ≡ in_window l.window key now log
  pub bounded : (key : Bytes) → length (queue_of l key) ≤ l.max_requests

pub check_queue-refused :
    (max_requests window now : ℕ) (queue : List ℕ)
    → length queue < 2 ^ 32
    → max_requests ≤ length (drain window now queue)
    → check_queue max_requests window now queue ≡ (false, drain window now queue)
unfolding check_queue
check_queue-refused max_requests window now queue small full =
    let e : leb max_requests (length (drain window now queue) % 2 ^ 32) ≡ true =
      ground (arith, length-drain-le window now queue) in
    rw e refl

pub check_queue-allowed :
    (max_requests window now : ℕ) (queue : List ℕ)
    → length queue < 2 ^ 32
    → length (drain window now queue) < max_requests
    → check_queue max_requests window now queue ≡ (true, drain window now queue ++ now ∷ [])
unfolding check_queue
check_queue-allowed max_requests window now queue small room =
    let e : leb max_requests (length (drain window now queue) % 2 ^ 32) ≡ false =
      ground (arith, length-drain-le window now queue) in
    rw e refl

-- What `check` does to a limiter that is not disabled.
pub check-eq :
    (l : RateLimiter) (key : Bytes) (now : ℕ) (b : Bool) (queue : List ℕ)
    → 0 < l.max_requests
    → check_queue l.max_requests l.window now (queue_of l key) ≡ (b, queue)
    → check l key now ≡ (b, record l { buckets = insert key queue l.buckets })
unfolding check
check-eq l key now b queue pos e =
    let nonzero : (l.max_requests == 0) ≡ false = ground arith in rw (nonzero, e) refl

queue_of-insert :
    (l : RateLimiter) (key k : Bytes) (queue : List ℕ)
    → queue_of (record l { buckets = insert key queue l.buckets }) k
      ≡ (if same key k then queue else queue_of l k)
queue_of-insert l key k queue = ground (arith, lookup-insert key k queue l.buckets)

-- A predicate on every queue after an insertion.
split_queue :
    (P : Bytes → List ℕ → Type 0) (l : RateLimiter) (key : Bytes) (queue : List ℕ)
    → P key queue
    → ((k : Bytes) → same key k ≡ false → P k (queue_of l k))
    → (k : Bytes) → P k (queue_of (record l { buckets = insert key queue l.buckets }) k)
split_queue P l key queue here there k =
    rw (queue_of-insert l key k queue) (elim (Bool-cases (same key k)) [
      | inl e ↦ rw e (subst (λ j. P j queue) (same_sound e) here)
      | inr e ↦ rw e (there k e)
    ])

module _ (l : RateLimiter) (log : List (Bytes × ℕ)) (last now : ℕ) (key : Bytes)
    (agrees : Agrees l log last) (order : last ≤ now) where
  pub refused-Agrees :
      Agrees
        (record l { buckets = insert key (drain l.window now (queue_of l key)) l.buckets })
        log
        now
  refused-Agrees = record {
    ordered =
        split_queue (λ _ queue. Ordered 0 now queue) l key _
          (drain-Ordered l.window now 0 now _
            (Ordered-later 0 last now _ (agrees.ordered key) order))
          (λ k _. Ordered-later 0 last now _ (agrees.ordered k) order);
    counts = λ k later le.
        split_queue (λ j queue. live_count l.window later queue ≡ in_window l.window j later log) l
          key _
          (live_count-drain l.window now later _ le
            ∙ (agrees.counts key later (omega (arith, le, order))))
          (λ j _. agrees.counts j later (omega (arith, le, order))) k;
    bounded =
        split_queue (λ _ queue. length queue ≤ l.max_requests) l key _
          (omega (arith, length-drain-le l.window now (queue_of l key), agrees.bounded key))
          (λ k _. agrees.bounded k);
  }

  pub allowed-Agrees :
      length (drain l.window now (queue_of l key)) < l.max_requests
      → Agrees
          (record l {
            buckets = insert key (drain l.window now (queue_of l key) ++ now ∷ []) l.buckets;
          })
          (log ++ (key, now) ∷ [])
          now
  allowed-Agrees room = record {
    ordered =
        split_queue (λ _ queue. Ordered 0 now queue) l key _
          (Ordered-push 0 now now _
            (drain-Ordered l.window now 0 now _
              (Ordered-later 0 last now _ (agrees.ordered key) order))
            (omega arith))
          (λ k _. Ordered-later 0 last now _ (agrees.ordered k) order);
    counts = λ k later le.
        split_queue
          (λ j queue.
            live_count l.window later queue ≡ in_window l.window j later (log ++ (key, now) ∷ []))
          l key _
          (let same_key : same key key ≡ true = same_refl key in
            let pushed = in_window-push l.window key key later now log in
            let drained = live_count-drain l.window now later (queue_of l key) le in
            let counted = agrees.counts key later (omega (arith, le, order)) in
            let queued = live_count-push l.window later now (drain l.window now (queue_of l key)) in
            rw (pushed, queued, same_key, drained, counted) refl)
          (λ j other.
            rw
              (
                in_window-push l.window j key later now log,
                other,
                agrees.counts j later (omega (arith, le, order)),
              )
              (omega arith))
          k;
    bounded =
        split_queue (λ _ queue. length queue ≤ l.max_requests) l key _
          (omega (arith, room, length-append (drain l.window now (queue_of l key)) (now ∷ [])))
          (λ k _. agrees.bounded k);
  }
