-- ===== src/Gateway/RateLimit/Spec.antt =====
-- A sliding window over the full log of admitted requests, which forgets nothing.
use ngen_orca.Base.{
  ℕ, Bool, Bytes, List, ◌∷◌, [], ◌==◌, ◌++◌, ◌≤◌, length, if◌then◌else◌, ◌||◌, true, ◌≡◌, arith,
  Bool-cases, same, ltb, false, ◌+◌, inl, refl, inr,
}
use ngen_orca.Gateway.RateLimit.{drain}

-- A request that was more than the window before now.
abbrev pub is_past : ℕ → ℕ → ℕ → Bool
is_past window now t = ltb (t + window) now

-- The requests of a key in the log that are at most `window` old.
unfoldable pub in_window : ℕ → Bytes → ℕ → List (Bytes × ℕ) → ℕ
in_window window key now [] = 0
in_window window key now ((k, t) ∷ log) =
    (if same k key then (if is_past window now t then 0 else 1) else 0)
    + in_window window key now log

-- A request is admitted while fewer than `max` are in the window, always if `max` is 0.
unfoldable pub admits : ℕ → ℕ → Bytes → ℕ → List (Bytes × ℕ) → Bool
admits max_requests window key now log =
    max_requests == 0 || ltb (in_window window key now log) max_requests

unfoldable pub log_request : Bool → Bytes → ℕ → List (Bytes × ℕ) → List (Bytes × ℕ)
log_request true key now log = log ++ (key, now) ∷ []
log_request false key now log = log

unfoldable pub answers : ℕ → ℕ → List (Bytes × ℕ) → List (Bytes × ℕ) → List Bool
unfolding log_request
answers max_requests window log [] = []
answers max_requests window log ((key, now) ∷ requests) =
    let b = admits max_requests window key now log in
    b ∷ answers max_requests window (log_request b key now log) requests

unfoldable pub final_log : ℕ → ℕ → List (Bytes × ℕ) → List (Bytes × ℕ) → List (Bytes × ℕ)
unfolding log_request
final_log max_requests window log [] = log
final_log max_requests window log ((key, now) ∷ requests) =
    final_log max_requests window (log_request (admits max_requests window key now log) key now log)
      requests

-- The live entries of one queue.
unfoldable pub live_count : ℕ → ℕ → List ℕ → ℕ
live_count window now [] = 0
live_count window now (t ∷ queue) =
    (if is_past window now t then 0 else 1) + live_count window now queue

-- Oldest first, and none later than `last`.
abbrev pub Ordered : ℕ → ℕ → List ℕ → Type 0
Ordered first last [] = first ≤ last
Ordered first last (t ∷ queue) = (first ≤ t) × Ordered t last queue

live_count-all :
    (window now first last : ℕ) (queue : List ℕ)
    → Ordered first last queue
    → is_past window now first ≡ false
    → live_count window now queue ≡ length queue
unfolding live_count
live_count-all window now first last [] h live = refl
live_count-all window now first last (t ∷ queue) (le, h) live =
    let here : is_past window now t ≡ false = ground arith in
    rw here (omega (arith, live_count-all window now t last queue h here))

-- Draining leaves just the live entries of an ordered queue.
pub length-drain :
    (window now first last : ℕ) (queue : List ℕ)
    → Ordered first last queue
    → length (drain window now queue) ≡ live_count window now queue
unfolding drain live_count
length-drain window now first last [] h = refl
length-drain window now first last (t ∷ queue) (le, h) = elim (Bool-cases (is_past window now t)) [
  | inl old ↦ rw old (omega (arith, length-drain window now t last queue h))
  | inr live ↦ rw live (omega (arith, live_count-all window now t last queue h live))
]

pub live_count-drain :
    (window now later : ℕ) (queue : List ℕ)
    → now ≤ later
    → live_count window later (drain window now queue) ≡ live_count window later queue
unfolding drain live_count
live_count-drain window now later [] le = refl
live_count-drain window now later (t ∷ queue) le =
    ground (arith, live_count-drain window now later queue le)

Ordered-weaken :
    (a b last : ℕ) (queue : List ℕ) → a ≤ b → Ordered b last queue → Ordered a last queue
Ordered-weaken a b last [] le h = omega arith
Ordered-weaken a b last (t ∷ queue) le (h, hs) = (omega arith, hs)

pub drain-Ordered :
    (window now first last : ℕ) (queue : List ℕ)
    → Ordered first last queue
    → Ordered first last (drain window now queue)
unfolding drain
drain-Ordered window now first last [] h = h
drain-Ordered window now first last (t ∷ queue) (le, h) = elim (Bool-cases (is_past window now t)) [
  | inl old ↦
      rw old (drain-Ordered window now first last queue (Ordered-weaken first t last queue le h))
  | inr live ↦ rw live (le, h)
]

pub Ordered-push :
    (first last now : ℕ) (queue : List ℕ)
    → Ordered first last queue
    → last ≤ now
    → Ordered first now (queue ++ now ∷ [])
Ordered-push first last now [] h le = (omega arith, omega arith)
Ordered-push first last now (t ∷ queue) (a, h) le = (a, Ordered-push t last now queue h le)

pub Ordered-later :
    (first last now : ℕ) (queue : List ℕ)
    → Ordered first last queue
    → last ≤ now
    → Ordered first now queue
Ordered-later first last now [] h le = omega arith
Ordered-later first last now (t ∷ queue) (a, h) le = (a, Ordered-later t last now queue h le)

pub live_count-push :
    (window now t : ℕ) (queue : List ℕ)
    → live_count window now (queue ++ t ∷ [])
      ≡ live_count window now queue + (if is_past window now t then 0 else 1)
unfolding live_count
live_count-push window now t [] = omega arith
live_count-push window now t (x ∷ queue) = omega (arith, live_count-push window now t queue)

pub in_window-push :
    (window : ℕ) (key k : Bytes) (now t : ℕ) (log : List (Bytes × ℕ))
    → in_window window key now (log ++ (k, t) ∷ [])
      ≡ in_window window key now log
        + (if same k key then (if is_past window now t then 0 else 1) else 0)
unfolding in_window
in_window-push window key k now t [] = omega arith
in_window-push window key k now t (x ∷ log) = omega (arith, in_window-push window key k now t log)

pub length-drain-le :
    (window now : ℕ) (queue : List ℕ) → length (drain window now queue) ≤ length queue
unfolding drain
length-drain-le window now [] = omega arith
length-drain-le window now (t ∷ queue) = ground (arith, length-drain-le window now queue)
