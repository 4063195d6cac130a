-- ===== src/Gateway/Quality/Tests.antt =====
-- Answers to a task, over numbers in place of `f64`.
use ngen_orca.Base.{refl, [], some, ℕ, codes, ◌+◌, ◌≡◌, ◌-◌, ◌*◌, ◌/◌, none, min, max, ltb}
use ngen_orca.Gateway.Quality.{evaluate, default_gate, Floats, escalate, refusal}
use ngen_orca.Gateway.Quality.Accepted.{IsAccept}
use ngen_orca.Gateway.Quality.Good.{Good}
use ngen_orca.Core.Orchestration.{TaskClassification, TaskIntent, TaskComplexity, rule_based_method}
use ngen_orca.Identity.Texts.{Text}

abbrev nats : Floats ℕ
nats = record {
  of_nat = λ n. n;
  add = λ a b. a + b;
  sub = λ a b. a - b;
  mul = λ a b. a * b;
  div = λ a b. a / b;
  min_of = min;
  clamp = λ a lo hi. max lo (min a hi);
  less = ltb;
}

abbrev task : TaskClassification ℕ
task = record {
  intent = TaskIntent.coding;
  complexity = TaskComplexity.simple;
  confidence = 1;
  method = rule_based_method;
  domain_tags = [];
  language = none;
}

abbrev answer : Text
answer = codes "See: ```let x = 1;``` and so on."

accepted : IsAccept (evaluate nats (λ s. s) default_gate task (some answer))
unfolding ngen_orca.Gateway.Quality.default_gate ngen_orca.Gateway.Quality.refusal_phrases
    ngen_orca.Gateway.Quality.min_for_complexity ngen_orca.Gateway.Quality.words_from
    ngen_orca.Gateway.Quality.distinct_words ngen_orca.Gateway.Quality.compute_quality_score
    ngen_orca.Gateway.Quality.judge_content ngen_orca.Gateway.Quality.evaluate
    ngen_orca.Gateway.Quality.Accepted.IsAccept ngen_orca.Identity.Texts.trim
    ngen_orca.Identity.Texts.trim_start ngen_orca.Identity.Texts.trim_end
accepted = tt

refused :
    evaluate nats (λ s. s) default_gate task (some (codes "well, i cannot say"))
    ≡ escalate (refusal (codes "i cannot"))
unfolding ngen_orca.Gateway.Quality.default_gate ngen_orca.Gateway.Quality.refusal_phrases
    ngen_orca.Gateway.Quality.min_for_complexity ngen_orca.Gateway.Quality.words_from
    ngen_orca.Gateway.Quality.distinct_words ngen_orca.Gateway.Quality.compute_quality_score
    ngen_orca.Gateway.Quality.judge_content ngen_orca.Gateway.Quality.evaluate
    ngen_orca.Gateway.Quality.Accepted.IsAccept ngen_orca.Identity.Texts.trim
    ngen_orca.Identity.Texts.trim_start ngen_orca.Identity.Texts.trim_end
refused = refl
