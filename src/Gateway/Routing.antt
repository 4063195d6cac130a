-- ===== src/Gateway/Routing.antt =====
-- How ngenorca-gateway/src/orchestration/orchestrator.rs picks the agent of a task, and the configuration
-- of agents in ngenorca-config/src/lib.rs. `F` is `f64`, whose values are only copied. The answer of the
-- learned router is an argument.
pub mod Selection
pub mod Fit
pub mod Laws
pub mod Escalation
mod Tests
use ngen_orca.Base.Select.{filter, find, min_by_key, insert_by_key, sort_by_key, first}
use ngen_orca.Identity.Texts.{to_ascii_lowercase}
use ngen_orca.Base.Options.{◌>>=◌}
use ngen_orca.Core.Orchestration.{
  unknown, TaskIntent, TaskComplexity, TaskClassification, SubAgentId, RoutingDecision,
  LearnedRoutingRule, complexity_rank, custom_intent, conversation, trivial, summarization, simple,
  translation, moderate, coding, complex, analysis, expert, creative, question_answering, planning,
  extraction, reasoning, vision, tool_use,
}
use ngen_orca.Base.{
  Bytes, Bool, ℕ, List, codes, some, Option, none, if◌then◌else◌, leb, same, ◌∷◌, false, any, ◌&&◌,
  ◌||◌, [], not, ltb, true,
}

pub data RoutingStrategy : Type 0 where
  single : RoutingStrategy
  llm_routed : RoutingStrategy
  rule_based : RoutingStrategy
  local_first : RoutingStrategy
  cost_optimized : RoutingStrategy
  hybrid : RoutingStrategy

pub record SubAgentConfig (F : Type 0) : Type 0 where
  pub agent_name : Bytes
  pub agent_model : Bytes
  pub roles : List Bytes
  pub base_prompt : Option Bytes
  pub agent_max_tokens : ℕ
  pub agent_temperature : F
  pub agent_max_complexity : Bytes
  pub is_local : Bool
  pub cost_weight : ℕ
  pub priority : ℕ

-- The fields of `AgentConfig` that routing reads.
pub record AgentConfig (F : Type 0) : Type 0 where
  pub primary_model : Bytes
  pub routing : RoutingStrategy
  pub sub_agents : List (SubAgentConfig F)

unfoldable pub intent_to_role_string : TaskIntent → Bytes
intent_to_role_string conversation = codes "General"
intent_to_role_string summarization = codes "Summarization"
intent_to_role_string translation = codes "Translation"
intent_to_role_string coding = codes "Coding"
intent_to_role_string analysis = codes "Analysis"
intent_to_role_string creative = codes "Creative"
intent_to_role_string question_answering = codes "QuestionAnswering"
intent_to_role_string planning = codes "Planning"
intent_to_role_string extraction = codes "Extraction"
intent_to_role_string reasoning = codes "Reasoning"
intent_to_role_string vision = codes "Vision"
intent_to_role_string tool_use = codes "ToolUse"
intent_to_role_string unknown = codes "General"
intent_to_role_string (custom_intent s) = s

-- No other character has a letter of these names as its lower case.
unfoldable pub limit_of : Bytes → TaskComplexity
limit_of max_str =
    let s = to_ascii_lowercase max_str in
    if same s (codes "trivial")
    then trivial
    else if same s (codes "simple")
    then simple
    else if same s (codes "moderate")
    then moderate
    else if same s (codes "complex")
    then complex
    else expert

unfoldable pub complexity_within_limit : TaskComplexity → Bytes → Bool
complexity_within_limit actual max_str =
    leb (complexity_rank actual) (complexity_rank (limit_of max_str))

abbrev pub eq_ignore_ascii_case : Bytes → Bytes → Bool
eq_ignore_ascii_case a b = same (to_ascii_lowercase a) (to_ascii_lowercase b)

module _ {F : Type 0} (config : AgentConfig F) where
  unfoldable pub sub_agent : Bytes → Option (SubAgentConfig F)
  sub_agent name = find (λ s. same s.agent_name name) config.sub_agents

  unfoldable pub route_to_primary : RoutingDecision F
  route_to_primary = record {
    target = record { name = codes "primary"; model = config.primary_model };
    temperature = none;
    max_tokens = none;
    from_memory = false;
  }

  unfoldable pub decision_for : SubAgentConfig F → Bool → RoutingDecision F
  decision_for agent learned = record {
    target = record { name = agent.agent_name; model = agent.agent_model };
    temperature = some agent.agent_temperature;
    max_tokens = some agent.agent_max_tokens;
    from_memory = learned;
  }

  unfoldable pub has_role : Bytes → SubAgentConfig F → Bool
  has_role role agent = any (λ r. eq_ignore_ascii_case r role) agent.roles

  unfoldable pub by_role : TaskClassification F → SubAgentConfig F → Bool
  by_role task a =
      has_role (intent_to_role_string task.intent) a
      && complexity_within_limit task.complexity a.agent_max_complexity

  unfoldable pub by_role_or_general : TaskClassification F → SubAgentConfig F → Bool
  by_role_or_general task a =
      (has_role (intent_to_role_string task.intent) a || has_role (codes "general") a)
      && complexity_within_limit task.complexity a.agent_max_complexity

  -- In this order in the source: local, a role, the limit.
  unfoldable pub by_local : TaskClassification F → SubAgentConfig F → Bool
  by_local task a = a.is_local && by_role_or_general task a

  unfoldable pub route_by_role : TaskClassification F → RoutingDecision F
  route_by_role task =
      elim (first (sort_by_key (λ a. a.priority) (filter (by_role task) config.sub_agents))) [
        | some agent ↦ decision_for agent false
        | none ↦ route_to_primary
      ]

  unfoldable pub route_local_first : TaskClassification F → RoutingDecision F
  route_local_first task =
      elim (min_by_key (λ a. a.priority) (filter (by_local task) config.sub_agents)) [
        | some agent ↦ decision_for agent false
        | none ↦ route_by_role task
      ]

  unfoldable pub route_cheapest : TaskClassification F → RoutingDecision F
  route_cheapest task =
      elim (min_by_key (λ a. a.cost_weight) (filter (by_role_or_general task) config.sub_agents)) [
        | some agent ↦ decision_for agent false
        | none ↦ route_to_primary
      ]

  unfoldable pub route_by_strategy : TaskClassification F → RoutingStrategy → RoutingDecision F
  route_by_strategy task single = route_to_primary
  route_by_strategy task rule_based = route_by_role task
  route_by_strategy task hybrid = route_by_role task
  route_by_strategy task local_first = route_local_first task
  route_by_strategy task cost_optimized = route_cheapest task
  route_by_strategy task llm_routed = route_by_role task

  unfoldable pub to_target : Bytes → Option (RoutingDecision F)
  to_target target =
      if same target (codes "primary")
      then some (record route_to_primary { from_memory = true })
      else sub_agent target >>= λ agent. some (decision_for agent true)

  -- The rule is what the learned router has for the task, if it answers.
  unfoldable pub route_from_learned :
      TaskClassification F → Option (LearnedRoutingRule F) → Option (RoutingDecision F)
  route_from_learned task found = do
    rule ← found
    fits ← elim rule.max_complexity [
      | none ↦ some true
      | some m ↦
          if ltb (complexity_rank m) (complexity_rank task.complexity) then none else some true
    ]
    to_target rule.target_agent

  unfoldable pub route_among : TaskClassification F → List (SubAgentConfig F) → RoutingDecision F
  route_among task [] = route_to_primary
  route_among task (a ∷ more) = route_by_strategy task config.routing

  unfoldable pub route_with_learned :
      TaskClassification F → Option (LearnedRoutingRule F) → RoutingDecision F
  route_with_learned task found = elim (route_from_learned task found) [
    | some decision ↦ decision
    | none ↦ route_among task config.sub_agents
  ]

  unfoldable pub route : TaskClassification F → RoutingDecision F
  route task = route_with_learned task none

  -- Another agent that costs more.
  unfoldable pub dearer : Bytes → SubAgentConfig F → Bool
  dearer current a =
      let current_cost : ℕ = elim (sub_agent current) [ none ↦ 0 | some c ↦ c.cost_weight ] in
      not (same a.agent_name current) && ltb current_cost a.cost_weight

  unfoldable pub find_escalation_target : Bytes → Option SubAgentId
  find_escalation_target current =
      elim (min_by_key (λ a. a.cost_weight) (filter (dearer current) config.sub_agents)) [
        | some agent ↦ some (record { name = agent.agent_name; model = agent.agent_model })
        | none ↦ some (record { name = codes "primary"; model = config.primary_model })
      ]
