-- ===== src/Gateway/Quality/Accepted.antt =====
-- What the heuristic gate of quality.rs accepts.
use ngen_orca.Gateway.Quality.{QualityVerdict, accept, escalate, augment}
use ngen_orca.Gateway.Quality.Occurs.{Occurs}
use ngen_orca.Gateway.Quality.Good.{Good}

unfoldable pub IsAccept : {F : Type 0} → QualityVerdict F → Type 0
IsAccept (accept score) = Unit
IsAccept (escalate reason) = ⊥
IsAccept (augment missing content) = ⊥
