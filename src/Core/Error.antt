-- ===== src/Core/Error.antt =====
-- ngenorca-core/src/error.rs. A message is its bytes, a duration its nanoseconds, and an `io::Error`
-- the bytes of its message.
use ngen_orca.Base.{Bytes, Bool, ℕ, true, ◌∷◌, codes, Option, false, ◌||◌, ◌==◌, [], ◌&&◌}

pub data Error : Type 0 where
  config : Bytes → Error
  identity : Bytes → Error
  memory : Bytes → Error
  plugin : Bytes → Error
  bus : Bytes → Error
  gateway : Bytes → Error
  sandbox : Bytes → Error
  database : Bytes → Error
  serialization : Bytes → Error
  io : Bytes → Error
  channel_closed : Error
  timeout : ℕ → Error
  unauthorized : Bytes → Error
  not_found : Bytes → Error
  other : Bytes → Error
  provider_unavailable : Bytes → Error
  rate_limited : Option ℕ → Error

abbrev pub starts_with : Bytes → Bytes → Bool
starts_with text [] = true
starts_with [] (p ∷ pattern) = false
starts_with (c ∷ text) (p ∷ pattern) = c == p && starts_with text pattern

-- `str::contains`.
abbrev pub contains : Bytes → Bytes → Bool
contains [] pattern = starts_with [] pattern
contains (c ∷ text) pattern = starts_with (c ∷ text) pattern || contains text pattern

-- The arm on the message of a gateway error.
unfoldable pub is_transient_message : Bytes → Bool
is_transient_message msg =
    contains msg (codes "429")
    || contains msg (codes "500")
    || contains msg (codes "502")
    || contains msg (codes "503")
    || contains msg (codes "timeout")
    || contains msg (codes "connection")

unfoldable pub is_transient : Error → Bool
unfolding is_transient_message
is_transient (provider_unavailable _) = true
is_transient (rate_limited _) = true
is_transient (timeout _) = true
is_transient (io _) = true
is_transient (gateway msg) = is_transient_message msg
is_transient _ = false
