-- ===== src/Memory/Working/Tests.antt =====
-- Runs of working.rs, and its theorems at concrete histories.
use ngen_orca.Base.{String, List, lookup, ℕ, ◌∷◌, [], codes, ◌≡◌, arith, nat_key, refl}
use ngen_orca.Memory.Working.{
  get_session, SessionContext, token_usage, WorkingMessage, new, push, push_context, evict,
  evict_first, over_budget, set_max_tokens,
}
use ngen_orca.Memory.Working.Laws.{
  pushed, Call, run, step, pushes, sets_max, clears, token_usage-run, lookup-step,
}
use ngen_orca.Memory.Working.Eviction.{tokens}
use ngen_orca.Memory.Working.Budget.{Trimmed, push_context-Trimmed}

abbrev message : String → ℕ → WorkingMessage
message role n = record {
  role = codes role;
  content = codes "text";
  timestamp = 0;
  estimated_tokens = n;
}

abbrev small_budget : List Call
small_budget =
    pushes 1 (message "system" 10)
    ∷ sets_max 1 30
    ∷ pushes 1 (message "user" 15)
    ∷ pushes 2 (message "user" 7)
    ∷ pushes 1 (message "user" 16)
    ∷ []

-- The run of the source's eviction test: the first user message goes.
evicted : get_session 1 (run new small_budget) ≡ message "system" 10 ∷ message "user" 16 ∷ []
unfolding get_session run new push push_context evict evict_first over_budget set_max_tokens
evicted = refl

token_usage-run_example :
    token_usage 1 (run new small_budget) ≡ tokens (get_session 1 (run new small_budget))
unfolding pushed
token_usage-run_example = token_usage-run small_budget 1 (omega arith)

lookup-step_example :
    lookup 2 (step (run new small_budget) (clears 1)) ≡ lookup 2 (run new small_budget)
lookup-step_example = lookup-step (run new small_budget) (clears 1) 2 (omega arith)

abbrev tight : SessionContext
tight = record {
  messages = message "system" 10 ∷ message "user" 15 ∷ [];
  total_tokens = 25;
  max_tokens = 30;
}

push_context-Trimmed_example :
    Trimmed 30
      (message "system" 10 ∷ message "user" 15 ∷ message "user" 16 ∷ [])
      (push_context (message "user" 16) tight)
unfolding tokens
push_context-Trimmed_example =
    push_context-Trimmed (message "user" 16) tight (omega arith) (omega arith)
