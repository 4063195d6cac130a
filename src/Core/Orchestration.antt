-- ===== src/Core/Orchestration.antt =====
-- ngenorca-core/src/orchestration.rs: what the orchestrator decides on. A text is the list of its code
-- points.
use ngen_orca.Base.{Bytes, ℕ, List, Option, Bool}

pub data TaskIntent : Type 0 where
  conversation : TaskIntent
  summarization : TaskIntent
  translation : TaskIntent
  coding : TaskIntent
  analysis : TaskIntent
  creative : TaskIntent
  question_answering : TaskIntent
  planning : TaskIntent
  extraction : TaskIntent
  reasoning : TaskIntent
  vision : TaskIntent
  tool_use : TaskIntent
  unknown : TaskIntent
  custom_intent : Bytes → TaskIntent

pub data TaskComplexity : Type 0 where
  trivial : TaskComplexity
  simple : TaskComplexity
  moderate : TaskComplexity
  complex : TaskComplexity
  expert : TaskComplexity

-- The derived order.
abbrev pub complexity_rank : TaskComplexity → ℕ
complexity_rank trivial = 0
complexity_rank simple = 1
complexity_rank moderate = 2
complexity_rank complex = 3
complexity_rank expert = 4

pub data ClassificationMethod : Type 0 where
  rule_based_method : ClassificationMethod
  slm_classifier : ClassificationMethod
  llm_classifier : ClassificationMethod
  learned_rule : ClassificationMethod

-- `F` is `f64`.
pub record TaskClassification (F : Type 0) : Type 0 where
  pub intent : TaskIntent
  pub complexity : TaskComplexity
  pub confidence : F
  pub method : ClassificationMethod
  pub domain_tags : List Bytes
  pub language : Option Bytes

pub record SubAgentId : Type 0 where
  pub name : Bytes
  pub model : Bytes

-- The texts `reason` and `system_prompt` are left out.
pub record RoutingDecision (F : Type 0) : Type 0 where
  pub target : SubAgentId
  pub temperature : Option F
  pub max_tokens : Option ℕ
  pub from_memory : Bool

pub record LearnedRoutingRule (F : Type 0) : Type 0 where
  pub rule_intent : TaskIntent
  pub domain_filter : Option Bytes
  pub max_complexity : Option TaskComplexity
  pub target_agent : Bytes
  pub rule_confidence : F
  pub sample_count : ℕ
  pub last_updated : ℕ
