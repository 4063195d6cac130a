-- ===== src/Identity/Texts.antt =====
-- The methods of `str` that the modelled code calls. A text is the list of its code
-- points.
use ngen_orca.Base.{
  List, ℕ, map, Bool, Option, length, leb, ◌||◌, if◌then◌else◌, ◌∷◌, true, some, none, suc, ◌&&◌,
  [], false, ◌==◌, zero, ◌+◌,
}

abbrev pub Text : Type 0
Text = List ℕ

-- `char::is_whitespace`: the code points with the property White_Space.
abbrev pub is_whitespace : ℕ → Bool
is_whitespace c =
    leb 9 c && leb c 13
    || c == 32
    || c == 133
    || c == 160
    || c == 5760
    || leb 8192 c && leb c 8202
    || c == 8232
    || c == 8233
    || c == 8239
    || c == 8287
    || c == 12288

abbrev pub is_ascii_digit : ℕ → Bool
is_ascii_digit c = leb 48 c && leb c 57

abbrev pub is_ascii_alphanumeric : ℕ → Bool
is_ascii_alphanumeric c = is_ascii_digit c || leb 65 c && leb c 90 || leb 97 c && leb c 122

abbrev pub to_ascii_lowercase : Text → Text
to_ascii_lowercase s = map (λ c. if leb 65 c && leb c 90 then c + 32 else c) s

unfoldable pub trim_start : Text → Text
trim_start [] = []
trim_start (c ∷ s) = if is_whitespace c then trim_start s else c ∷ s

unfoldable pub trim_end : Text → Text
trim_end [] = []
trim_end (c ∷ s) = elim (trim_end s) [
  | [] ↦ if is_whitespace c then [] else c ∷ []
  | d ∷ t ↦ c ∷ d ∷ t
]

unfoldable pub trim : Text → Text
trim s = trim_end (trim_start s)

abbrev pub is_empty : Text → Bool
is_empty [] = true
is_empty (c ∷ s) = false

unfoldable pub strip_prefix : Text → Text → Option Text
strip_prefix [] s = some s
strip_prefix (p ∷ prefix) [] = none
strip_prefix (p ∷ prefix) (c ∷ s) = if c == p then strip_prefix prefix s else none

-- `strip_suffix` of one character.
unfoldable pub strip_last : ℕ → Text → Option Text
strip_last x [] = none
strip_last x (c ∷ []) = if c == x then some [] else none
strip_last x (c ∷ d ∷ s) = elim (strip_last x (d ∷ s)) [ none ↦ none | some t ↦ some (c ∷ t) ]

-- `trim_start_matches`, on fuel: every turn takes a character at least.
unfoldable pub trim_matches_from : ℕ → Text → Text → Text
unfolding strip_prefix
trim_matches_from zero prefix s = s
trim_matches_from (suc fuel) prefix s = elim (strip_prefix prefix s) [
  | none ↦ s
  | some t ↦ trim_matches_from fuel prefix t
]

unfoldable pub trim_start_matches : Text → Text → Text
unfolding trim_matches_from
trim_start_matches prefix s = trim_matches_from (length s) prefix s

unfoldable pub split_once : ℕ → Text → Option (Text × Text)
split_once x [] = none
split_once x (c ∷ s) =
    if c == x
    then some ([], s)
    else elim (split_once x s) [ none ↦ none | some (a, b) ↦ some (c ∷ a, b) ]

-- `str::split` at a character.
unfoldable pub split : ℕ → Text → List Text
split x [] = [] ∷ []
split x (c ∷ s) =
    let rest = split x s in
    if c == x then [] ∷ rest else elim rest [ [] ↦ (c ∷ []) ∷ [] | a ∷ more ↦ (c ∷ a) ∷ more ]

abbrev pub filter : (ℕ → Bool) → Text → Text
filter p [] = []
filter p (c ∷ s) = if p c then c ∷ filter p s else filter p s
