-- ===== src/Base/Texts.antt =====
-- Texts as lists of numbers: the bytes of a string, or its code points, which are the same
-- numbers for an ASCII text.
use Prim.Native.Nat.{ℕ}
use Prim.Native.Char.{code}
use Prim.Native.String.{String}
use mathlib.Core.Path.{◌≡◌, refl}
use mathlib.Core.Logic.{◌↔◌}
use mathlib.Core.Bool.{Bool, true, false, ◌&&◌}
use mathlib.Core.List.{List, [], ◌∷◌}
use native.Mathlib.Omega.{arith}
use ngen_orca.Base.Tests.{◌==◌}
use ngen_orca.Base.Maps.{HashKey}

abbrev pub Bytes : Type 0
Bytes = List ℕ

abbrev pub codes : String → List ℕ
codes String.[] = []
codes (String.◌∷◌ c s) = code c ∷ codes s

-- `==` on two texts.
abbrev pub same : List ℕ → List ℕ → Bool
same [] [] = true
same [] (_ ∷ _) = false
same (_ ∷ _) [] = false
same (a ∷ s) (b ∷ t) = (a == b) && same s t

pub same_refl : (s : List ℕ) → same s s ≡ true
same_refl [] = refl
same_refl (a ∷ s) = ground (arith, same_refl s)

pub same_sound : {s t : List ℕ} → same s t ≡ true → s ≡ t
same_sound {s = []} {t = []} h = refl
same_sound {s = []} {t = b ∷ t} h = cc
same_sound {s = a ∷ s} {t = []} h = cc
same_sound {s = a ∷ s} {t = b ∷ t} h =
    let tails : same s t ≡ true = ground arith in
    let heads : a ≡ b = ground arith in cc (heads, same_sound {s = s} {t = t} tails)

pub same_iff : (s t : List ℕ) → (same s t ≡ true) ↔ (s ≡ t)
same_iff s t = (same_sound, λ e. rw e (same_refl t))

instance abbrev pub text_key : HashKey (List ℕ)
text_key = record { equals = same; equals_refl = same_refl; equals_sound = same_sound }
