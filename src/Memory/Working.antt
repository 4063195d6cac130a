-- ===== src/Memory/Working.antt =====
-- ngenorca-memory/src/working.rs. The `RwLock` serialises the calls, so each operation maps the
-- state before it to the state after it. A timestamp is a number; `usize` is 64 bits wide.
pub mod Laws
pub mod Eviction
pub mod Budget
mod Tests
use ngen_orca.Base.{
  ℕ, zero, suc, ◌+◌, ◌-◌, ◌^◌, Bool, true, false, ◌&&◌, not, Option, none, some, List, [], ◌∷◌,
  ◌++◌, ltb, if◌then◌else◌, length, add64, sub64, nat_key, lookup, insert, remove, modify, same,
  Bytes, codes,
}

-- `role` and `content` are texts.
pub record WorkingMessage : Type 0 where
  pub role : Bytes
  pub content : Bytes
  pub timestamp : ℕ
  pub estimated_tokens : ℕ

pub record SessionContext : Type 0 where
  pub messages : List WorkingMessage
  pub total_tokens : ℕ
  pub max_tokens : ℕ

-- The key is a `SessionId`, a 128-bit number.
abbrev pub WorkingMemory : Type 0
WorkingMemory = List (ℕ × SessionContext)

abbrev pub is_system : WorkingMessage → Bool
is_system m = same m.role (codes "system")

unfoldable pub new : WorkingMemory
new = []

-- `position(|m| m.role != "system")` with `remove(idx)`: the message found, and the others.
unfoldable pub evict_first : List WorkingMessage → Option (WorkingMessage × List WorkingMessage)
evict_first [] = none
evict_first (m ∷ ms) =
    if is_system m
    then elim (evict_first ms) [ none ↦ none | some (x, rest) ↦ some (x, m ∷ rest) ]
    else some (m, ms)

unfoldable pub over_budget : SessionContext → Bool
over_budget c = ltb c.max_tokens c.total_tokens && ltb 2 (length c.messages)

-- The `while` loop. Each round removes a message, so their number is fuel enough.
unfoldable pub evict : ℕ → SessionContext → SessionContext
evict zero c = c
evict (suc fuel) c = elim (over_budget c) [
  | false ↦ c
  | true ↦ elim (evict_first c.messages) [
    | none ↦ c
    | some (m, rest) ↦
        evict fuel
          (record c { messages = rest; total_tokens = sub64 c.total_tokens m.estimated_tokens })
  ]
]

abbrev pub empty_context : SessionContext
empty_context = record { messages = []; total_tokens = 0; max_tokens = 128000 }

-- The body of `push` on the session's context.
unfoldable pub push_context : WorkingMessage → SessionContext → SessionContext
unfolding evict
push_context m c =
    let added = c.messages ++ m ∷ [] in
    evict (suc (length added))
      (record c { messages = added; total_tokens = add64 c.total_tokens m.estimated_tokens })

abbrev pub context_or_new : Option SessionContext → SessionContext
context_or_new none = empty_context
context_or_new (some c) = c

unfoldable pub push : ℕ → WorkingMessage → WorkingMemory → WorkingMemory
unfolding push_context
push sid m w = insert sid (push_context m (context_or_new (lookup sid w))) w

unfoldable pub get_session : ℕ → WorkingMemory → List WorkingMessage
get_session sid w = elim (lookup sid w) [ none ↦ [] | some c ↦ c.messages ]

unfoldable pub clear_session : ℕ → WorkingMemory → WorkingMemory
clear_session sid w = remove sid w

unfoldable pub set_max_tokens : ℕ → ℕ → WorkingMemory → WorkingMemory
set_max_tokens sid max_tokens w = modify sid (λ c. record c { max_tokens = max_tokens }) w

unfoldable pub token_usage : ℕ → WorkingMemory → ℕ
token_usage sid w = elim (lookup sid w) [ none ↦ 0 | some c ↦ c.total_tokens ]
