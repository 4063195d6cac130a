-- ===== src/Gateway/Routing/Laws.antt =====
-- Which agent the strategies of orchestrator.rs pick for a task.
use ngen_orca.Base.{refl, subst, sym, List, ◌∷◌, ◌≡◌, [], Option, ℕ, some, false, none, All, codes}
use ngen_orca.Gateway.Routing.Selection.{
  FirstBest, Chosen, chosen, no_one, min_by_key-Chosen, first-sort_by_key,
}
use ngen_orca.Gateway.Routing.Fit.{
  Fit, FitOrGeneral, LocalFit, by_role_iff, by_role_or_general_iff, by_local_iff,
}
use ngen_orca.Base.Select.{filter, min_by_key, first, sort_by_key}
use ngen_orca.Gateway.Routing.{
  AgentConfig, SubAgentConfig, RoutingStrategy, route_by_role, route_by_strategy, route,
  route_to_primary, by_role, route_local_first, route_with_learned, by_local, route_cheapest,
  single, route_from_learned, decision_for, by_role_or_general, llm_routed, rule_based, hybrid,
  local_first, cost_optimized, route_among,
}
use ngen_orca.Core.Orchestration.{TaskClassification, RoutingDecision}

module _ {F : Type 0} (config : AgentConfig F) (task : TaskClassification F) where
  -- The decision is for the first agent with the least key among those of a kind, with its settings, and where
  -- there is none it is as described otherwise.
  pub data Best (P : SubAgentConfig F → Type 0) (key : SubAgentConfig F → ℕ)
      (otherwise : RoutingDecision F → Type 0) (d : RoutingDecision F) : Type 0 where
    to_agent :
        (a : SubAgentConfig F)
        → FirstBest P key config.sub_agents a
        → d ≡ record {
          target = record { name = a.agent_name; model = a.agent_model };
          temperature = some a.agent_temperature;
          max_tokens = some a.agent_max_tokens;
          from_memory = false;
        }
        → Best P key otherwise d
    no_agent : All (λ a. ¬ P a) config.sub_agents → otherwise d → Best P key otherwise d

  abbrev pub ToPrimary : RoutingDecision F → Type 0
  ToPrimary d = d ≡ record {
    target = record { name = codes "primary"; model = config.primary_model };
    temperature = none;
    max_tokens = none;
    from_memory = false;
  }

  -- What each strategy is for. No model is asked, in any of them.
  pub Routed : RoutingStrategy → RoutingDecision F → Type 0
  Routed single d = ToPrimary d
  Routed llm_routed d = Best (Fit config task) (λ a. a.priority) ToPrimary d
  Routed rule_based d = Best (Fit config task) (λ a. a.priority) ToPrimary d
  Routed hybrid d = Best (Fit config task) (λ a. a.priority) ToPrimary d
  Routed local_first d =
      Best (LocalFit config task) (λ a. a.priority)
        (Best (Fit config task) (λ a. a.priority) ToPrimary) d
  Routed cost_optimized d = Best (FitOrGeneral config task) (λ a. a.cost_weight) ToPrimary d

  Chosen-Best :
      (P : SubAgentConfig F → Type 0) (key : SubAgentConfig F → ℕ)
      (otherwise : RoutingDecision F → Type 0) (fallback : RoutingDecision F)
      (o : Option (SubAgentConfig F))
      → otherwise fallback
      → Chosen P key config.sub_agents o
      → Best P key otherwise
          (elim o [ some agent ↦ decision_for config agent false | none ↦ fallback ])
  unfolding decision_for
  Chosen-Best P key otherwise fallback _ h (no_one none_fits) = no_agent none_fits h
  Chosen-Best P key otherwise fallback _ h (chosen a best) = to_agent a best refl

  route_to_primary-ToPrimary : ToPrimary (route_to_primary config)
  unfolding route_to_primary
  route_to_primary-ToPrimary = refl

  route_by_role-Best :
      Best (Fit config task) (λ a. a.priority) ToPrimary (route_by_role config task)
  unfolding route_by_role
  route_by_role-Best =
      let key : SubAgentConfig F → ℕ = λ a. a.priority in
      let fit = filter (by_role config task) config.sub_agents in
      let same_pick : first (sort_by_key key fit) ≡ min_by_key key fit =
        first-sort_by_key key fit in
      subst
        (λ o. Best (Fit config task) key ToPrimary (elim o [
          | some agent ↦ decision_for config agent false
          | none ↦ route_to_primary config
        ]))
        (sym same_pick)
        (Chosen-Best (Fit config task) key ToPrimary (route_to_primary config) (min_by_key key fit)
          route_to_primary-ToPrimary
          (min_by_key-Chosen (by_role config task) (Fit config task) key config.sub_agents
            (by_role_iff config task)))

  route_by_strategy-Routed : (s : RoutingStrategy) → Routed s (route_by_strategy config task s)
  unfolding Routed route_by_strategy route_local_first route_cheapest
  route_by_strategy-Routed single = route_to_primary-ToPrimary
  route_by_strategy-Routed llm_routed = route_by_role-Best
  route_by_strategy-Routed rule_based = route_by_role-Best
  route_by_strategy-Routed hybrid = route_by_role-Best
  route_by_strategy-Routed local_first =
      Chosen-Best (LocalFit config task) (λ a. a.priority)
        (Best (Fit config task) (λ a. a.priority) ToPrimary) (route_by_role config task) _
        route_by_role-Best
        (min_by_key-Chosen (by_local config task) (LocalFit config task) (λ a. a.priority)
          config.sub_agents (by_local_iff config task))
  route_by_strategy-Routed cost_optimized =
      Chosen-Best (FitOrGeneral config task) (λ a. a.cost_weight) ToPrimary
        (route_to_primary config) _ route_to_primary-ToPrimary
        (min_by_key-Chosen (by_role_or_general config task) (FitOrGeneral config task)
          (λ a. a.cost_weight) config.sub_agents (by_role_or_general_iff config task))

  no_agents : (P : SubAgentConfig F → Type 0) → config.sub_agents ≡ [] → All P config.sub_agents
  no_agents P e = subst (All P) (sym e) tt

  no_agents-Routed :
      config.sub_agents ≡ [] → (s : RoutingStrategy) → Routed s (route_to_primary config)
  unfolding Routed
  no_agents-Routed e single = route_to_primary-ToPrimary
  no_agents-Routed e llm_routed = no_agent (no_agents _ e) route_to_primary-ToPrimary
  no_agents-Routed e rule_based = no_agent (no_agents _ e) route_to_primary-ToPrimary
  no_agents-Routed e hybrid = no_agent (no_agents _ e) route_to_primary-ToPrimary
  no_agents-Routed e local_first =
      no_agent (no_agents _ e) (no_agent (no_agents _ e) route_to_primary-ToPrimary)
  no_agents-Routed e cost_optimized = no_agent (no_agents _ e) route_to_primary-ToPrimary

  route_among-Routed :
      (agents : List (SubAgentConfig F))
      → config.sub_agents ≡ agents
      → Routed config.routing (route_among config task agents)
  unfolding route_among
  route_among-Routed [] e = no_agents-Routed e config.routing
  route_among-Routed (a ∷ more) e = route_by_strategy-Routed config.routing

  -- A task without a learned rule goes to the agent that its strategy is for, with the settings of this agent.
  -- By role (also where the configuration says that a model decides) that is the first of the least priority
  -- that has the role of the task, in any case of letters, and a limit that is not below the task. In the local
  -- mode it is the same among the local ones with the role or the general one, and otherwise as by role. By
  -- cost it is the first of the least cost with the role or the general one and the limit. Where none fits, and
  -- in the single mode, it is the primary model.
  pub route-Routed : Routed config.routing (route config task)
  unfolding route route_with_learned route_from_learned
  route-Routed = route_among-Routed config.sub_agents refl
