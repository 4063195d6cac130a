-- ===== src/Memory/Working/Budget.antt =====
-- The eviction loop of `push` against a specification: drop the oldest messages that are not
-- system messages, as many as the budget asks for and no more.
use ngen_orca.Memory.Working.{
  WorkingMessage, SessionContext, evict, evict_first, push_context, over_budget,
}
use ngen_orca.Base.{
  List, ℕ, ◌∷◌, suc, ◌≤◌, ◌≡◌, ◌+◌, true, ◌⊎◌, ◌<◌, none, some, [], zero, length, Bool-cases, inl,
  Option-cases, inr, arith, ◌^◌, false, sub64, refl, ◌∙◌, ◌++◌, sym,
}
use ngen_orca.Memory.Working.Eviction.{
  tokens, drop_chat, AllSystem, drop_chat-evict_first, evict_first-none, tokens-append,
  evict_first-tokens,
}

-- The context is within its budget, or holds nothing that may be evicted.
abbrev pub IsSettled : ℕ → List WorkingMessage → Type 0
IsSettled budget ms = (tokens ms ≤ budget) ⊎ ((length ms ≤ 2) ⊎ AllSystem ms)

-- `c` holds what is left of `ms` after the fewest evictions that settle it.
pub record Trimmed (budget : ℕ) (ms : List WorkingMessage) (c : SessionContext) : Type 0 where
  pub dropped : ℕ
  pub kept : c.messages ≡ drop_chat dropped ms
  pub counted : c.total_tokens ≡ tokens c.messages
  pub budget_same : c.max_tokens ≡ budget
  pub settled : IsSettled budget c.messages
  pub needed :
      (j : ℕ) → j < dropped → (budget < tokens (drop_chat j ms)) × (2 < length (drop_chat j ms))

over_budget-false :
    (c : SessionContext)
    → over_budget c ≡ false
    → (c.total_tokens ≤ c.max_tokens) ⊎ (length c.messages ≤ 2)
unfolding over_budget
over_budget-false c e = ground arith

over_budget-true :
    (c : SessionContext)
    → over_budget c ≡ true
    → (c.max_tokens < c.total_tokens) × (2 < length c.messages)
unfolding over_budget
over_budget-true c e = ground arith

after_evicting : SessionContext → WorkingMessage → List WorkingMessage → SessionContext
after_evicting c x rest = record c {
  messages = rest;
  total_tokens = sub64 c.total_tokens x.estimated_tokens;
}

evict-step :
    (fuel : ℕ) (c : SessionContext) (x : WorkingMessage) (rest : List WorkingMessage)
    → over_budget c ≡ true
    → evict_first c.messages ≡ some (x, rest)
    → evict (suc fuel) c ≡ evict fuel (after_evicting c x rest)
unfolding evict after_evicting
evict-step fuel c x rest over found = rw (over, evict, found) refl

evict-stuck :
    (fuel : ℕ) (c : SessionContext)
    → over_budget c ≡ true
    → evict_first c.messages ≡ none
    → evict (suc fuel) c ≡ c
unfolding evict
evict-stuck fuel c over stuck = rw (over, evict, stuck) refl

evict-done : (fuel : ℕ) (c : SessionContext) → over_budget c ≡ false → evict (suc fuel) c ≡ c
unfolding evict
evict-done fuel c fine = rw (fine, evict) refl

-- A context that needs no eviction.
untouched-Trimmed :
    (c : SessionContext)
    → c.total_tokens ≡ tokens c.messages
    → IsSettled c.max_tokens c.messages
    → Trimmed c.max_tokens c.messages c
unfolding drop_chat
untouched-Trimmed c counted settled = record {
  dropped = 0;
  kept = refl;
  counted = counted;
  budget_same = refl;
  settled = settled;
  needed = λ j h. elim h [ ];
}

module _ (c : SessionContext) (x : WorkingMessage) (rest : List WorkingMessage)
    (found : evict_first c.messages ≡ some (x, rest)) where
  needed-suc :
      (k : ℕ)
      → (c.max_tokens < tokens c.messages) × (2 < length c.messages)
      → ((j : ℕ)
          → j < k
          → (c.max_tokens < tokens (drop_chat j rest)) × (2 < length (drop_chat j rest)))
      → (j : ℕ) → j < suc k
      → (c.max_tokens < tokens (drop_chat j c.messages)) × (2 < length (drop_chat j c.messages))
  unfolding drop_chat
  needed-suc k here later zero h = here
  needed-suc k here later (suc j) h =
      rw (drop_chat-evict_first x j c.messages rest found) (later j (omega arith))

  Trimmed-suc :
      (d : SessionContext)
      → (c.max_tokens < tokens c.messages) × (2 < length c.messages)
      → Trimmed c.max_tokens rest d
      → Trimmed c.max_tokens c.messages d
  Trimmed-suc d here t = record {
    dropped = suc t.dropped;
    kept = t.kept ∙ sym (drop_chat-evict_first x t.dropped c.messages rest found);
    counted = t.counted;
    budget_same = t.budget_same;
    settled = t.settled;
    needed = needed-suc t.dropped here t.needed;
  }

-- The loop runs to its own end and trims to the budget.
evict-Trimmed :
    (fuel : ℕ) (c : SessionContext)
    → length c.messages < fuel
    → c.total_tokens ≡ tokens c.messages
    → tokens c.messages < 2 ^ 64
    → Trimmed c.max_tokens c.messages (evict fuel c)
unfolding after_evicting
evict-Trimmed zero c h counted small = elim h [ ]
evict-Trimmed (suc fuel) c h counted small = elim (Bool-cases (over_budget c)) [
  | inr fine ↦
      rw (evict-done fuel c fine)
        (untouched-Trimmed c counted (ground (arith, over_budget-false c fine)))
  | inl over ↦ elim (Option-cases (evict_first c.messages)) [
    | inl stuck ↦
        rw (evict-stuck fuel c over stuck)
          (untouched-Trimmed c counted (inr (inr (evict_first-none c.messages stuck))))
    | inr ((x, rest), found) ↦
        let (sum, len) = evict_first-tokens x c.messages rest found in
        let (high, many) = over_budget-true c over in
        rw (evict-step fuel c x rest over found) (
          Trimmed-suc c x rest found (evict fuel (after_evicting c x rest)) (omega arith, many)
            (evict-Trimmed fuel (after_evicting c x rest) (omega arith) (omega arith)
              (omega arith)))
  ]
]

-- `push` on a context whose total is the sum of its messages: the message is added, the oldest
-- messages that are not system messages are dropped, the fewest that bring the context into its
-- budget (or down to two messages, or to system messages only), and the total stays the sum. The
-- condition is that the new total fits 64 bits.
pub push_context-Trimmed :
    (m : WorkingMessage) (c : SessionContext)
    → c.total_tokens ≡ tokens c.messages
    → tokens c.messages + m.estimated_tokens < 2 ^ 64
    → Trimmed c.max_tokens (c.messages ++ m ∷ []) (push_context m c)
unfolding push_context tokens
push_context-Trimmed m c counted small =
    let sum : tokens (c.messages ++ m ∷ []) ≡ tokens c.messages + m.estimated_tokens =
      omega (arith, tokens-append c.messages (m ∷ [])) in
    evict-Trimmed (suc (length (c.messages ++ m ∷ []))) _ (omega arith) (omega arith) (omega arith)
