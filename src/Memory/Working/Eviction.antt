-- ===== src/Memory/Working/Eviction.antt =====
-- What one eviction of working.rs removes, and a list without its oldest messages.
use ngen_orca.Memory.Working.{WorkingMessage, evict_first, is_system}
use ngen_orca.Base.{
  List, ℕ, ◌∷◌, suc, All, ◌≤◌, ◌≡◌, ◌+◌, if◌then◌else◌, true, none, some, [], zero, length,
  Bool-cases, inl, Option-cases, inr, arith, ap, ◌++◌,
}

unfoldable pub tokens : List WorkingMessage → ℕ
tokens [] = 0
tokens (m ∷ ms) = m.estimated_tokens + tokens ms

-- `ms` without its first `k` messages that are not system messages.
unfoldable pub drop_chat : ℕ → List WorkingMessage → List WorkingMessage
drop_chat zero ms = ms
drop_chat (suc k) [] = []
drop_chat (suc k) (m ∷ ms) = if is_system m then m ∷ drop_chat (suc k) ms else drop_chat k ms

abbrev pub AllSystem : List WorkingMessage → Type 0
AllSystem ms = All (λ m. is_system m ≡ true) ms

pub evict_first-none : (ms : List WorkingMessage) → evict_first ms ≡ none → AllSystem ms
unfolding evict_first
evict_first-none [] e = tt
evict_first-none (m ∷ ms) e = elim (Bool-cases (is_system m)) [
  | inl sys ↦ elim (Option-cases (evict_first ms)) [
    | inl missing ↦ (sys, evict_first-none ms missing)
    | inr ((x, rest), found) ↦ absurd (ground arith)
  ]
  | inr chat ↦ absurd (ground arith)
]

pub drop_chat-system :
    (k : ℕ) (m : WorkingMessage) (ms more : List WorkingMessage)
    → is_system m ≡ true
    → drop_chat (suc k) ms ≡ drop_chat k more
    → m ∷ drop_chat (suc k) ms ≡ drop_chat k (m ∷ more)
unfolding drop_chat
drop_chat-system zero m ms more sys e = ap (◌∷◌ m) e
drop_chat-system (suc k) m ms more sys e = rw sys (ap (◌∷◌ m) e)

module _ (x : WorkingMessage) where
  pub evict_first-tokens :
      (ms rest : List WorkingMessage)
      → evict_first ms ≡ some (x, rest)
      → (tokens ms ≡ x.estimated_tokens + tokens rest) × (length ms ≡ suc (length rest))
  unfolding evict_first tokens
  evict_first-tokens [] rest e = cc
  evict_first-tokens (m ∷ ms) rest e = elim (Bool-cases (is_system m)) [
    | inl sys ↦ elim (Option-cases (evict_first ms)) [
      | inl missing ↦ absurd (ground arith)
      | inr ((y, more), found) ↦ ground (arith, evict_first-tokens ms more)
    ]
    | inr chat ↦ ground arith
  ]

  pub drop_chat-evict_first :
      (k : ℕ) (ms rest : List WorkingMessage)
      → evict_first ms ≡ some (x, rest)
      → drop_chat (suc k) ms ≡ drop_chat k rest
  unfolding evict_first drop_chat
  drop_chat-evict_first k [] rest e = cc
  drop_chat-evict_first k (m ∷ ms) rest e = elim (Bool-cases (is_system m)) [
    | inl sys ↦ elim (Option-cases (evict_first ms)) [
      | inl missing ↦ absurd (ground arith)
      | inr ((y, more), found) ↦
          let both : evict_first ms ≡ some (x, more) = ground arith in
          let e' : m ∷ more ≡ rest = ground arith in
          rw (← e', sys) (drop_chat-system k m ms more sys (drop_chat-evict_first k ms more both))
    ]
    | inr chat ↦ ground arith
  ]

pub tokens-drop_chat : (k : ℕ) (ms : List WorkingMessage) → tokens (drop_chat k ms) ≤ tokens ms
unfolding tokens drop_chat
tokens-drop_chat zero ms = omega arith
tokens-drop_chat (suc k) [] = omega arith
tokens-drop_chat (suc k) (m ∷ ms) =
    ground (arith, tokens-drop_chat (suc k) ms, tokens-drop_chat k ms)

pub tokens-append : (xs ys : List WorkingMessage) → tokens (xs ++ ys) ≡ tokens xs + tokens ys
unfolding tokens
tokens-append [] ys = omega arith
tokens-append (x ∷ xs) ys = omega (arith, tokens-append xs ys)
