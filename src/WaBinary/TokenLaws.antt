-- ===== src/WaBinary/TokenLaws.antt =====
-- The dictionary of binary.rs read both ways.
use ngen_orca.Base.{
  ℕ, ◌≡◌, refl, ◌≢◌, false, some, List, [], ◌∷◌, arith, Bool-cases, inl, inr, get_elem?, Bytes,
  lookup, insert, same, same_iff, text_key, ◌+◌, ◌<◌, length, ap, ◌≤◌, suc, ◌∙◌, ◌%◌, zero,
  lookup-insert,
}
use ngen_orca.WaBinary.Tokens.{
  is_empty, insert_tokens, single_byte_tokens, build_token_map, token_index,
}

-- Every entry of a map points at its own text.
abbrev Agrees : List Bytes → List (Bytes × ℕ) → Type 0
Agrees all m = (s : Bytes) (i : ℕ) → lookup s m ≡ some i → (get_elem? all i ≡ some s) × (s ≢ [])

is_empty-false : (s : Bytes) → is_empty s ≡ false → s ≢ []
is_empty-false s h = λ e. cc

insert-Agrees :
    (all : List Bytes) (m : List (Bytes × ℕ)) (i : ℕ) (t : Bytes)
    → get_elem? all i ≡ some t
    → t ≢ []
    → Agrees all m
    → Agrees all (insert t i m)
insert-Agrees all m i t found full h s j e = elim (Bool-cases (same t s)) [
  | inl eq ↦ ground (arith, lookup-insert t s i m, same_iff t s)
  | inr ne ↦ h s j (ground (arith, lookup-insert t s i m))
]

abbrev StandsAt : List Bytes → ℕ → List Bytes → Type 0
StandsAt all i toks = (j : ℕ) → get_elem? all (i + j) ≡ get_elem? toks j

insert_tokens-Agrees :
    (all : List Bytes) (i : ℕ) (toks : List Bytes) (m : List (Bytes × ℕ))
    → i + length toks ≤ 256
    → StandsAt all i toks
    → Agrees all m
    → Agrees all (insert_tokens i toks m)
unfolding insert_tokens
insert_tokens-Agrees all i [] m fits at h = h
insert_tokens-Agrees all i (t ∷ ts) m fits at h =
    insert_tokens-Agrees all (suc i) ts _ (omega arith)
      (λ j. ap (get_elem? all) (omega arith) ∙ at (suc j))
      (elim (Bool-cases (is_empty t)) [
        | inl blank ↦ rw blank h
        | inr full ↦ rw full (
            insert-Agrees all m (i % 256) t (ap (get_elem? all) (omega arith) ∙ at 0)
              (is_empty-false t full) h)
      ])

get_elem?-length {ℓ} :
    {A : Type ℓ} (xs : List A) (i : ℕ) {x : A} → get_elem? xs i ≡ some x → i < length xs
get_elem?-length [] i e = cc
get_elem?-length (y ∷ ys) zero e = omega arith
get_elem?-length (y ∷ ys) (suc i) e = omega (arith, get_elem?-length ys i e)

tokens_length : length single_byte_tokens ≡ 166
unfolding single_byte_tokens
tokens_length = refl

tokens_first : get_elem? single_byte_tokens 0 ≡ some []
unfolding single_byte_tokens
tokens_first = refl

build_token_map-Agrees : Agrees single_byte_tokens build_token_map
unfolding build_token_map
build_token_map-Agrees =
    insert_tokens-Agrees single_byte_tokens 0 single_byte_tokens [] (omega (arith, tokens_length))
      (λ j. let e : 0 + j ≡ j = omega arith in ap (get_elem? single_byte_tokens) e) (λ s i e. cc)

-- The index of a string is a byte from 1 to 165, at which the dictionary holds the string.
pub token_index_lem :
    (s : Bytes) (i : ℕ)
    → token_index s ≡ some i
    → (get_elem? single_byte_tokens i ≡ some s) × (1 ≤ i) × (i ≤ 165) × (s ≢ [])
unfolding token_index
token_index_lem s i e =
    let (found, full) = build_token_map-Agrees s i e in
    (
      found,
      pos i found full,
      omega (arith, get_elem?-length single_byte_tokens i found, tokens_length),
      full,
    )
  where
    pos : (i : ℕ) → get_elem? single_byte_tokens i ≡ some s → s ≢ [] → 1 ≤ i
    pos zero f full = absurd (full (cc (f, tokens_first)))
    pos (suc i) f full = omega arith
