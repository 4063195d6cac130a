-- ===== src/Memory/Working/Laws.antt =====
-- Histories of calls on a working memory.
use ngen_orca.Base.{
  ℕ, List, ◌∷◌, ◌+◌, Option, [], ◌≡◌, lookup, ◌<◌, ◌≢◌, ◌≤◌, some, ◌^◌, arith, text_key,
  lookup-insert, none, Bool-cases, lookup-remove, ap, refl, ◌==◌, lookup-modify, inl, ◌++◌, nat_key,
  Option-cases, inr,
}
use ngen_orca.Memory.Working.{
  WorkingMemory, push, WorkingMessage, clear_session, SessionContext, set_max_tokens, push_context,
  context_or_new, token_usage, get_session, new,
}
use ngen_orca.Memory.Working.Eviction.{tokens, tokens-drop_chat, tokens-append}
use ngen_orca.Memory.Working.Budget.{push_context-Trimmed}

pub data Call : Type 0 where
  pushes : ℕ → WorkingMessage → Call
  clears : ℕ → Call
  sets_max : ℕ → ℕ → Call

abbrev pub step : WorkingMemory → Call → WorkingMemory
step w (pushes sid m) = push sid m w
step w (clears sid) = clear_session sid w
step w (sets_max sid n) = set_max_tokens sid n w

unfoldable pub run : WorkingMemory → List Call → WorkingMemory
run w [] = w
run w (c ∷ cs) = run (step w c) cs

abbrev pub session_of : Call → ℕ
session_of (pushes sid m) = sid
session_of (clears sid) = sid
session_of (sets_max sid n) = sid

-- The tokens of all messages pushed.
unfoldable pub pushed : List Call → ℕ
pushed [] = 0
pushed (pushes sid m ∷ cs) = m.estimated_tokens + pushed cs
pushed (clears _ ∷ cs) = pushed cs
pushed (sets_max _ _ ∷ cs) = pushed cs

-- A call leaves every session but its own as it was.
pub lookup-step :
    (w : WorkingMemory) (c : Call) (j : ℕ) → session_of c ≢ j → lookup j (step w c) ≡ lookup j w
unfolding push clear_session set_max_tokens
lookup-step w (pushes sid m) j ne =
    ground (arith, lookup-insert sid j (push_context m (context_or_new (lookup sid w))) w)
lookup-step w (clears sid) j ne = ground (arith, lookup-remove sid j w)
lookup-step w (sets_max sid n) j ne =
    ground (arith, lookup-modify sid j (λ c. record c { max_tokens = n }) w)

abbrev IsCounted : ℕ → SessionContext → Type 0
IsCounted bound c = (c.total_tokens ≡ tokens c.messages) × (tokens c.messages ≤ bound)

abbrev AllCounted : ℕ → WorkingMemory → Type 0
AllCounted bound w = (sid : ℕ) (c : SessionContext) → lookup sid w ≡ some c → IsCounted bound c

push_context-IsCounted :
    (bound : ℕ) (m : WorkingMessage) (c : SessionContext)
    → IsCounted bound c
    → bound + m.estimated_tokens < 2 ^ 64
    → IsCounted (bound + m.estimated_tokens) (push_context m c)
unfolding tokens
push_context-IsCounted bound m c (counted, le) small =
    let t = push_context-Trimmed m c counted (omega arith) in
    (
      t.counted,
      omega (
        arith,
        ap tokens t.kept,
        tokens-drop_chat t.dropped (c.messages ++ m ∷ []),
        tokens-append c.messages (m ∷ []),
      ),
    )

context_or_new-IsCounted :
    (bound : ℕ) (o : Option SessionContext)
    → ((c : SessionContext) → o ≡ some c → IsCounted bound c)
    → IsCounted bound (context_or_new o)
unfolding tokens
context_or_new-IsCounted bound none h = (omega arith, omega arith)
context_or_new-IsCounted bound (some c) h = h c refl

push-AllCounted :
    (bound sid : ℕ) (m : WorkingMessage) (w : WorkingMemory)
    → AllCounted bound w
    → bound + m.estimated_tokens < 2 ^ 64
    → AllCounted (bound + m.estimated_tokens) (push sid m w)
unfolding push
push-AllCounted bound sid m w h small j c e =
    let c0 = context_or_new (lookup sid w) in
    elim (Bool-cases (sid == j)) [
      | inl eq ↦
          let same_c : push_context m c0 ≡ c =
            ground (arith, lookup-insert sid j (push_context m c0) w) in
          rw (← same_c) (
            push_context-IsCounted bound m c0
              (context_or_new-IsCounted bound (lookup sid w) (h sid)) small)
      | inr ne ↦
          let (a, b) = h j c (ground (arith, lookup-insert sid j (push_context m c0) w)) in
          (a, omega arith)
    ]

clear-AllCounted :
    (bound sid : ℕ) (w : WorkingMemory)
    → AllCounted bound w
    → AllCounted bound (clear_session sid w)
unfolding clear_session
clear-AllCounted bound sid w h j c e = h j c (ground (arith, lookup-remove sid j w))

set_max-AllCounted :
    (bound sid n : ℕ) (w : WorkingMemory)
    → AllCounted bound w
    → AllCounted bound (set_max_tokens sid n w)
unfolding set_max_tokens
set_max-AllCounted bound sid n w h j c e = elim (Option-cases (lookup j w)) [
  | inl missing ↦ absurd (ground (arith, lookup-modify sid j (λ d. record d { max_tokens = n }) w))
  | inr (d, found) ↦
      let (a, b) = h j d found in
      ground (arith, lookup-modify sid j (λ d. record d { max_tokens = n }) w)
]

run-AllCounted :
    (bound : ℕ) (w : WorkingMemory) (cs : List Call)
    → AllCounted bound w
    → bound + pushed cs < 2 ^ 64
    → AllCounted (bound + pushed cs) (run w cs)
unfolding run pushed
run-AllCounted bound w [] h small = let e : bound + 0 ≡ bound = omega arith in rw e h
run-AllCounted bound w (pushes sid m ∷ cs) h small =
    let k : ℕ = m.estimated_tokens in
    let e : bound + (k + pushed cs) ≡ bound + k + pushed cs = omega arith in
    rw e (
      run-AllCounted (bound + k) (push sid m w) cs (push-AllCounted bound sid m w h (omega arith))
        (omega arith))
run-AllCounted bound w (clears sid ∷ cs) h small =
    run-AllCounted bound (clear_session sid w) cs (clear-AllCounted bound sid w h) small
run-AllCounted bound w (sets_max sid n ∷ cs) h small =
    run-AllCounted bound (set_max_tokens sid n w) cs (set_max-AllCounted bound sid n w h) small

-- After any calls on a new memory that push fewer than 2 ^ 64 tokens in all, the usage reported
-- for every session is the sum over the messages that the session returns.
pub token_usage-run :
    (cs : List Call) (sid : ℕ)
    → pushed cs < 2 ^ 64
    → token_usage sid (run new cs) ≡ tokens (get_session sid (run new cs))
unfolding token_usage get_session tokens new
token_usage-run cs sid small = elim (Option-cases (lookup sid (run [] cs))) [
  | inl missing ↦ rw (missing, token_usage, get_session) refl
  | inr (c, found) ↦
      let (counted, _) = run-AllCounted 0 [] cs (λ j d e. cc) (omega arith) sid c found in
      rw (found, token_usage, get_session) counted
]
