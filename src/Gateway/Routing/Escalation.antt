-- ===== src/Gateway/Routing/Escalation.antt =====
-- Where orchestrator.rs escalates a task to.
use ngen_orca.Base.{
  refl, List, ◌∷◌, ◌++◌, Bytes, ◌≡◌, ◌≢◌, [], Option, ℕ, some, none, All, codes, ◌↔◌, ◌<◌, same, ap,
  true, false, Bool-cases, same_iff, inl, same_sound, inr, ltb→lt, lt→ltb,
}
use ngen_orca.Gateway.Routing.Selection.{FirstBest, Chosen, chosen, no_one, min_by_key-Chosen}
use ngen_orca.Base.Select.{find}
use ngen_orca.Gateway.Routing.{
  AgentConfig, SubAgentConfig, sub_agent, dearer, find_escalation_target,
}
use ngen_orca.Core.Orchestration.{SubAgentId}

module _ {F : Type 0} (config : AgentConfig F) (current : Bytes) where
  -- The cost of the agent that escalates: of the first one of this name, and nothing without one.
  pub data CostOf : ℕ → Type 0 where
    known :
        (before after : List (SubAgentConfig F)) (a : SubAgentConfig F)
        → config.sub_agents ≡ before ++ a ∷ after
        → All (λ b. b.agent_name ≢ current) before
        → a.agent_name ≡ current
        → CostOf a.cost_weight
    unknown_name : All (λ b. b.agent_name ≢ current) config.sub_agents → CostOf 0

  -- Another agent that costs more.
  pub record Dearer (cost : ℕ) (b : SubAgentConfig F) : Type 0 where
    pub other : b.agent_name ≢ current
    pub more : cost < b.cost_weight

  pub data Escalated (cost : ℕ) : Option SubAgentId → Type 0 where
    to_agent :
        (a : SubAgentConfig F)
        → FirstBest (Dearer cost) (λ b. b.cost_weight) config.sub_agents a
        → Escalated cost (some (record { name = a.agent_name; model = a.agent_model }))
    to_primary :
        All (λ b. ¬ Dearer cost b) config.sub_agents
        → Escalated cost (some (record { name = codes "primary"; model = config.primary_model }))

  abbrev cost_or_zero : Option (SubAgentConfig F) → ℕ
  cost_or_zero none = 0
  cost_or_zero (some c) = c.cost_weight

  -- What `find` answers, with the agents that it passed over.
  data Found (agents : List (SubAgentConfig F)) : Option (SubAgentConfig F) → Type 0 where
    at :
        (before after : List (SubAgentConfig F)) (a : SubAgentConfig F)
        → agents ≡ before ++ a ∷ after
        → All (λ b. b.agent_name ≢ current) before
        → a.agent_name ≡ current
        → Found agents (some a)
    nowhere : All (λ b. b.agent_name ≢ current) agents → Found agents none

  differs : (b : SubAgentConfig F) → same b.agent_name current ≡ false → b.agent_name ≢ current
  differs b e = λ q. let yes = (same_iff b.agent_name current).1 q in absurd cc

  Found-skip :
      (b : SubAgentConfig F) (agents : List (SubAgentConfig F)) (o : Option (SubAgentConfig F))
      → b.agent_name ≢ current
      → Found agents o
      → Found (b ∷ agents) o
  Found-skip b agents _ d (at before after a parts h e) =
      at (b ∷ before) after a (ap (◌∷◌ b) parts) (d, h) e
  Found-skip b agents _ d (nowhere h) = nowhere (d, h)

  find-Found :
      (agents : List (SubAgentConfig F))
      → Found agents (find (λ s. same s.agent_name current) agents)
  find-Found [] = nowhere tt
  find-Found (b ∷ agents) = elim (Bool-cases (same b.agent_name current)) [
    | inl e ↦ rw e (at [] agents b refl tt (same_sound e))
    | inr e ↦ rw e (Found-skip b agents _ (differs b e) (find-Found agents))
  ]

  Found-CostOf :
      (o : Option (SubAgentConfig F)) → Found config.sub_agents o → CostOf (cost_or_zero o)
  Found-CostOf _ (at before after a parts h e) = known before after a parts h e
  Found-CostOf _ (nowhere h) = unknown_name h

  dearer_iff :
      (b : SubAgentConfig F)
      → (dearer config current b ≡ true) ↔ Dearer (cost_or_zero (sub_agent config current)) b
  unfolding dearer
  dearer_iff b =
      let cost = cost_or_zero (sub_agent config current) in
      elim (Bool-cases (same b.agent_name current)) [
        | inl e ↦ (
          λ h. let bad : false ≡ true = rw e at h in absurd cc,
          λ d. absurd (d.other (same_sound e)),
        )
        | inr e ↦ (
          λ h. record { other = differs b e; more = ltb→lt cost b.cost_weight (rw e at h) },
          λ d. rw e (lt→ltb cost b.cost_weight d.more),
        )
      ]

  Chosen-Escalated :
      (cost : ℕ) (o : Option (SubAgentConfig F))
      → Chosen (Dearer cost) (λ b. b.cost_weight) config.sub_agents o
      → Escalated cost (elim o [
        | some agent ↦ some (record { name = agent.agent_name; model = agent.agent_model })
        | none ↦ some (record { name = codes "primary"; model = config.primary_model })
      ])
  Chosen-Escalated cost _ (chosen a best) = to_agent a best
  Chosen-Escalated cost _ (no_one h) = to_primary h

  -- The escalation from an agent goes to the cheapest agent of another name that costs more than it (the
  -- first of those), and to the primary model if there is none; there always is a target. A name that no
  -- agent has costs nothing.
  pub find_escalation_target-Escalated :
      (cost : ℕ) × CostOf cost × Escalated cost (find_escalation_target config current)
  unfolding find_escalation_target sub_agent
  find_escalation_target-Escalated =
      let o = sub_agent config current in
      let cost = cost_or_zero o in
      (
        cost,
        Found-CostOf o (find-Found config.sub_agents),
        Chosen-Escalated cost _ (
            min_by_key-Chosen (dearer config current) (Dearer cost) (λ b. b.cost_weight)
              config.sub_agents dearer_iff),
      )
