-- ===== src/Gateway/Routing/Fit.antt =====
-- Which agents of the configuration (ngenorca-config/src/lib.rs) are fit for a task, as the strategies of
-- orchestrator.rs mean it.
use ngen_orca.Base.{
  Bytes, ◌↔◌, ◌⊎◌, true, codes, ℕ, ◌≡◌, ◌≤◌, Bool, refl, arith, leb, List, ◌||◌, ◌&&◌, Bool-cases,
  any, inl, false, ◌++◌, same, ◌∷◌, inr, same_sound, [], ◌∙◌, ap, same_iff, sym,
}
use ngen_orca.Core.Orchestration.{
  unknown, TaskIntent, TaskComplexity, TaskClassification, complexity_rank, custom_intent,
  conversation, trivial, summarization, simple, translation, moderate, coding, complex, analysis,
  expert, creative, question_answering, planning, extraction, reasoning, vision, tool_use,
}
use ngen_orca.Identity.Texts.{to_ascii_lowercase}
use ngen_orca.Gateway.Routing.{
  complexity_within_limit, intent_to_role_string, AgentConfig, limit_of, SubAgentConfig, has_role,
  by_role, by_role_or_general, by_local, eq_ignore_ascii_case,
}

-- The names of roles that the documentation of the configuration gives, in lower case.
abbrev pub role_of : TaskIntent → Bytes
role_of conversation = codes "general"
role_of summarization = codes "summarization"
role_of translation = codes "translation"
role_of coding = codes "coding"
role_of analysis = codes "analysis"
role_of creative = codes "creative"
role_of question_answering = codes "questionanswering"
role_of planning = codes "planning"
role_of extraction = codes "extraction"
role_of reasoning = codes "reasoning"
role_of vision = codes "vision"
role_of tool_use = codes "tooluse"
role_of unknown = codes "general"
role_of (custom_intent s) = to_ascii_lowercase s

abbrev pub level : TaskComplexity → ℕ
level trivial = 0
level simple = 1
level moderate = 2
level complex = 3
level expert = 4

-- A limit names a level in any case; another text is no limit.
pub record WithinLimit (c : TaskComplexity) (limit : Bytes) : Type 0 where
  pub up_to_trivial : to_ascii_lowercase limit ≡ codes "trivial" → level c ≤ 0
  pub up_to_simple : to_ascii_lowercase limit ≡ codes "simple" → level c ≤ 1
  pub up_to_moderate : to_ascii_lowercase limit ≡ codes "moderate" → level c ≤ 2
  pub up_to_complex : to_ascii_lowercase limit ≡ codes "complex" → level c ≤ 3

level-complexity_rank : (c : TaskComplexity) → complexity_rank c ≡ level c
level-complexity_rank trivial = refl
level-complexity_rank simple = refl
level-complexity_rank moderate = refl
level-complexity_rank complex = refl
level-complexity_rank expert = refl

level-max : (c : TaskComplexity) → level c ≤ 4
level-max trivial = omega arith
level-max simple = omega arith
level-max moderate = omega arith
level-max complex = omega arith
level-max expert = omega arith

complexity_within_limit_sound :
    (c : TaskComplexity) (limit : Bytes)
    → complexity_within_limit c limit ≡ true
    → WithinLimit c limit
unfolding complexity_within_limit limit_of
complexity_within_limit_sound c limit h =
    let same_rank = level-complexity_rank c in
    record {
      up_to_trivial = λ e. let le : leb (complexity_rank c) 0 ≡ true = rw e at h in ground arith;
      up_to_simple = λ e. let le : leb (complexity_rank c) 1 ≡ true = rw e at h in ground arith;
      up_to_moderate = λ e. let le : leb (complexity_rank c) 2 ≡ true = rw e at h in ground arith;
      up_to_complex = λ e. let le : leb (complexity_rank c) 3 ≡ true = rw e at h in ground arith;
    }

le-leb : (c : TaskComplexity) (n : ℕ) → level c ≤ n → leb (complexity_rank c) n ≡ true
le-leb c n h = let same_rank = level-complexity_rank c in ground arith

complexity_within_limit_complete :
    (c : TaskComplexity) (limit : Bytes)
    → WithinLimit c limit
    → complexity_within_limit c limit ≡ true
unfolding complexity_within_limit limit_of
complexity_within_limit_complete c limit w =
    let s = to_ascii_lowercase limit in
    elim (Bool-cases (same s (codes "trivial"))) [
      | inl e ↦ rw e (le-leb c 0 (w.up_to_trivial (same_sound e)))
      | inr n1 ↦ elim (Bool-cases (same s (codes "simple"))) [
        | inl e ↦ rw (n1, e) (le-leb c 1 (w.up_to_simple (same_sound e)))
        | inr n2 ↦ elim (Bool-cases (same s (codes "moderate"))) [
          | inl e ↦ rw (n1, n2, e) (le-leb c 2 (w.up_to_moderate (same_sound e)))
          | inr n3 ↦ elim (Bool-cases (same s (codes "complex"))) [
            | inl e ↦ rw (n1, n2, n3, e) (le-leb c 3 (w.up_to_complex (same_sound e)))
            | inr n4 ↦ rw (n1, n2, n3, n4) (le-leb c 4 (level-max c))
          ]
        ]
      ]
    ]

lower-role_of : (i : TaskIntent) → to_ascii_lowercase (intent_to_role_string i) ≡ role_of i
unfolding intent_to_role_string
lower-role_of conversation = refl
lower-role_of summarization = refl
lower-role_of translation = refl
lower-role_of coding = refl
lower-role_of analysis = refl
lower-role_of creative = refl
lower-role_of question_answering = refl
lower-role_of planning = refl
lower-role_of extraction = refl
lower-role_of reasoning = refl
lower-role_of vision = refl
lower-role_of tool_use = refl
lower-role_of unknown = refl
lower-role_of (custom_intent s) = refl

any-parts :
    {A : Type 0} (p : A → Bool) (xs : List A)
    → any p xs ≡ true
    → (before : List A) × (x : A) × (after : List A) × (xs ≡ before ++ x ∷ after) × (p x ≡ true)
any-parts p [] e = absurd cc
any-parts p (x ∷ xs) e = elim (Bool-cases (p x)) [
  | inl h ↦ ([], x, xs, refl, h)
  | inr h ↦
      let (before, y, after, parts, q) = any-parts p xs (rw h at e) in
      (x ∷ before, y, after, ap (◌∷◌ x) parts, q)
]

any-append :
    {A : Type 0} (p : A → Bool) (before : List A) (x : A) (after : List A)
    → p x ≡ true
    → any p (before ++ x ∷ after) ≡ true
any-append p [] x after h = rw h refl
any-append p (y ∷ before) x after h = elim (Bool-cases (p y)) [
  | inl e ↦ rw e refl
  | inr e ↦ rw e (any-append p before x after h)
]

or-cases : (a b : Bool) → (a || b) ≡ true → (a ≡ true) ⊎ (b ≡ true)
or-cases true b h = inl refl
or-cases false b h = inr h

and-parts : (a b : Bool) → (a && b) ≡ true → (a ≡ true) × (b ≡ true)
and-parts true b h = (refl, h)
and-parts false b h = absurd cc

and-intro : (a b : Bool) → a ≡ true → b ≡ true → (a && b) ≡ true
and-intro a b h k = rw h k

module _ {F : Type 0} (config : AgentConfig F) where
  -- One of the roles of the agent is this one, in any case.
  pub record HasRole (role : Bytes) (a : SubAgentConfig F) : Type 0 where
    pub before : List Bytes
    pub of_agent : Bytes
    pub after : List Bytes
    pub among : a.roles ≡ before ++ of_agent ∷ after
    pub in_any_case : to_ascii_lowercase of_agent ≡ role

  -- The agent has the role of the task, and its limit allows the task.
  pub record Fit (task : TaskClassification F) (a : SubAgentConfig F) : Type 0 where
    pub for_role : HasRole (role_of task.intent) a
    pub within : WithinLimit task.complexity a.agent_max_complexity

  -- An agent of general use serves as well.
  pub record FitOrGeneral (task : TaskClassification F) (a : SubAgentConfig F) : Type 0 where
    pub for_any_role : HasRole (role_of task.intent) a ⊎ HasRole (codes "general") a
    pub within_limit : WithinLimit task.complexity a.agent_max_complexity

  pub record LocalFit (task : TaskClassification F) (a : SubAgentConfig F) : Type 0 where
    pub local : a.is_local ≡ true
    pub fit : FitOrGeneral task a

  has_role_iff :
      (role lower : Bytes) (a : SubAgentConfig F)
      → to_ascii_lowercase role ≡ lower
      → (has_role config role a ≡ true) ↔ HasRole lower a
  unfolding has_role
  has_role_iff role lower a e = (
    λ h.
        let (before, r, after, parts, q) = any-parts (λ r. eq_ignore_ascii_case r role) a.roles h in
        record {
          before = before;
          of_agent = r;
          after = after;
          among = parts;
          in_any_case = same_sound q ∙ e;
        },
    λ h.
        let q =
          (same_iff (to_ascii_lowercase h.of_agent) (to_ascii_lowercase role)).1
            (h.in_any_case ∙ sym e) in
        rw (h.among) (any-append (λ r. eq_ignore_ascii_case r role) h.before h.of_agent h.after q),
  )

  pub by_role_iff :
      (task : TaskClassification F) (a : SubAgentConfig F)
      → (by_role config task a ≡ true) ↔ Fit task a
  unfolding by_role
  by_role_iff task a =
      let role =
        has_role_iff (intent_to_role_string task.intent) (role_of task.intent) a
          (lower-role_of task.intent) in
      (
        λ h.
            let (h1, h2) = and-parts _ _ h in
            record {
              for_role = role.0 h1;
              within = complexity_within_limit_sound task.complexity a.agent_max_complexity h2;
            },
        λ f.
            rw (role.1 f.for_role)
              (complexity_within_limit_complete task.complexity a.agent_max_complexity f.within),
      )

  pub by_role_or_general_iff :
      (task : TaskClassification F) (a : SubAgentConfig F)
      → (by_role_or_general config task a ≡ true) ↔ FitOrGeneral task a
  unfolding by_role_or_general
  by_role_or_general_iff task a =
      let role =
        has_role_iff (intent_to_role_string task.intent) (role_of task.intent) a
          (lower-role_of task.intent) in
      let general = has_role_iff (codes "general") (codes "general") a refl in
      let b = has_role config (intent_to_role_string task.intent) a in
      (
        λ h.
            let (h1, h2) = and-parts _ _ h in
            record {
              for_any_role = elim (or-cases _ _ h1) [
                | inl f ↦ inl (role.0 f)
                | inr g ↦ inr (general.0 g)
              ];
              within_limit =
                  complexity_within_limit_sound task.complexity a.agent_max_complexity h2;
            },
        λ f.
            let fits =
              complexity_within_limit_complete task.complexity a.agent_max_complexity
                f.within_limit in
            elim f.for_any_role [
              | inl r ↦ rw (role.1 r) fits
              | inr g ↦ elim (Bool-cases b) [ inl e ↦ rw e fits | inr e ↦ rw (e, general.1 g) fits ]
            ],
      )

  pub by_local_iff :
      (task : TaskClassification F) (a : SubAgentConfig F)
      → (by_local config task a ≡ true) ↔ LocalFit task a
  unfolding by_local
  by_local_iff task a =
      let any_role = by_role_or_general_iff task a in
      (
        λ h. let (h1, h2) = and-parts _ _ h in record { local = h1; fit = any_role.0 h2 },
        λ f. and-intro _ _ f.local (any_role.1 f.fit),
      )
