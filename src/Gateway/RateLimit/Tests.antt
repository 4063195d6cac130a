-- ===== src/Gateway/RateLimit/Tests.antt =====
-- Runs of the limiter, and the refinement on them.
use ngen_orca.Base.{Bytes, List, codes, ℕ, ◌∷◌, ◌≡◌, [], true, false, refl}
use ngen_orca.Gateway.RateLimit.Answers.{check_all}
use ngen_orca.Gateway.RateLimit.{check, new, check_queue, drain}

abbrev alice : Bytes
alice = codes "alice"

abbrev bob : Bytes
bob = codes "bob"

-- Two requests in three nanoseconds: the first of alice is gone when the limit is reached again.
abbrev busy : List (Bytes × ℕ)
busy = (alice, 0) ∷ (alice, 1) ∷ (alice, 2) ∷ (bob, 2) ∷ (alice, 2000000000) ∷ []

run-busy : check_all (new 2 1) busy ≡ true ∷ true ∷ false ∷ true ∷ true ∷ []
unfolding check_all check new check_queue drain
run-busy = refl

run-disabled : check_all (new 0 1) busy ≡ true ∷ true ∷ true ∷ true ∷ true ∷ []
unfolding check_all check new check_queue drain
run-disabled = refl
