-- ===== src/Gateway/Routing/Tests.antt =====
-- Two agents, of which one is local, and the tasks that they get.
use ngen_orca.Base.{refl, ℕ, codes, ◌≡◌, ◌∷◌, some, [], false, none, true}
use ngen_orca.Gateway.Routing.{
  AgentConfig, SubAgentConfig, local_first, route, find_escalation_target, decision_for,
}
use ngen_orca.Gateway.Routing.Laws.{Routed, route-Routed}
use ngen_orca.Gateway.Routing.Escalation.{CostOf, Escalated, find_escalation_target-Escalated}
use ngen_orca.Core.Orchestration.{TaskClassification, TaskIntent, moderate, rule_based_method}

abbrev coder : SubAgentConfig ℕ
coder = record {
  agent_name = codes "coder";
  agent_model = codes "m1";
  roles = codes "coding" ∷ [];
  base_prompt = none;
  agent_max_tokens = 100;
  agent_temperature = 3;
  agent_max_complexity = codes "Complex";
  is_local = false;
  cost_weight = 5;
  priority = 2;
}

abbrev helper : SubAgentConfig ℕ
helper = record coder {
  agent_name = codes "helper";
  roles = codes "General" ∷ codes "Coding" ∷ [];
  agent_max_complexity = codes "simple";
  is_local = true;
  cost_weight = 1;
  priority = 2;
}

abbrev config : AgentConfig ℕ
config = record {
  primary_model = codes "big";
  routing = local_first;
  sub_agents = coder ∷ helper ∷ [];
}

abbrev task : TaskClassification ℕ
task = record {
  intent = TaskIntent.coding;
  complexity = moderate;
  confidence = 1;
  method = rule_based_method;
  domain_tags = [];
  language = none;
}

-- The local agent does not take a moderate task.
route-Routed_example : Routed config task local_first (route config task)
route-Routed_example = route-Routed config task

to_coder : route config task ≡ decision_for config coder false
unfolding ngen_orca.Gateway.Routing.intent_to_role_string ngen_orca.Gateway.Routing.limit_of
    ngen_orca.Gateway.Routing.complexity_within_limit ngen_orca.Gateway.Routing.sub_agent
    ngen_orca.Gateway.Routing.route_to_primary ngen_orca.Gateway.Routing.decision_for
    ngen_orca.Gateway.Routing.has_role ngen_orca.Gateway.Routing.by_role
    ngen_orca.Gateway.Routing.by_role_or_general ngen_orca.Gateway.Routing.by_local
    ngen_orca.Gateway.Routing.route_by_role ngen_orca.Gateway.Routing.route_local_first
    ngen_orca.Gateway.Routing.route_cheapest ngen_orca.Gateway.Routing.route_by_strategy
    ngen_orca.Gateway.Routing.to_target ngen_orca.Gateway.Routing.route_from_learned
    ngen_orca.Gateway.Routing.route_among ngen_orca.Gateway.Routing.route_with_learned
    ngen_orca.Gateway.Routing.route ngen_orca.Gateway.Routing.dearer
    ngen_orca.Gateway.Routing.find_escalation_target
to_coder = refl

find_escalation_target-Escalated_example :
    (cost : ℕ) × CostOf config (codes "helper") cost
    × Escalated config (codes "helper") cost (find_escalation_target config (codes "helper"))
find_escalation_target-Escalated_example = find_escalation_target-Escalated config (codes "helper")

helper_to_coder :
    find_escalation_target config (codes "helper")
    ≡ some (record { name = codes "coder"; model = codes "m1" })
unfolding ngen_orca.Gateway.Routing.intent_to_role_string ngen_orca.Gateway.Routing.limit_of
    ngen_orca.Gateway.Routing.complexity_within_limit ngen_orca.Gateway.Routing.sub_agent
    ngen_orca.Gateway.Routing.route_to_primary ngen_orca.Gateway.Routing.decision_for
    ngen_orca.Gateway.Routing.has_role ngen_orca.Gateway.Routing.by_role
    ngen_orca.Gateway.Routing.by_role_or_general ngen_orca.Gateway.Routing.by_local
    ngen_orca.Gateway.Routing.route_by_role ngen_orca.Gateway.Routing.route_local_first
    ngen_orca.Gateway.Routing.route_cheapest ngen_orca.Gateway.Routing.route_by_strategy
    ngen_orca.Gateway.Routing.to_target ngen_orca.Gateway.Routing.route_from_learned
    ngen_orca.Gateway.Routing.route_among ngen_orca.Gateway.Routing.route_with_learned
    ngen_orca.Gateway.Routing.route ngen_orca.Gateway.Routing.dearer
    ngen_orca.Gateway.Routing.find_escalation_target
helper_to_coder = refl
