-- ===== src/Gateway/Quality/Good.antt =====
-- The answers that the heuristic gate of quality.rs means to accept.
use ngen_orca.Base.{codes, ℕ, List, ◌≤◌, ◌≡◌, ◌≢◌, All, ◌∷◌, []}
use ngen_orca.Core.Orchestration.{
  TaskClassification, TaskIntent, TaskComplexity, trivial, simple, moderate, complex, expert,
}
use ngen_orca.Identity.Texts.{Text, trim}
use ngen_orca.Gateway.Quality.{HeuristicQualityGate, len}
use ngen_orca.Gateway.Quality.Occurs.{Occurs}

-- The least length of an answer, in bytes.
abbrev pub minimum : TaskComplexity → ℕ
minimum trivial = 5
minimum simple = 20
minimum moderate = 50
minimum complex = 100
minimum expert = 200

-- The phrases of a refusal, in English and Portuguese.
abbrev pub refusals : List Text
refusals =
    codes "i can't"
    ∷ codes "i cannot"
    ∷ codes "i don't know"
    ∷ codes "i'm not sure"
    ∷ codes "i am unable"
    ∷ codes "i'm unable"
    ∷ codes "as an ai"
    ∷ codes "as a language model"
    ∷ codes "i don't have access"
    ∷ codes "não consigo"
    ∷ codes "não sei"
    ∷ codes "não tenho"
    ∷ codes "não posso"
    ∷ codes "como modelo de linguagem"
    ∷ codes "desculpa, mas"
    ∷ []

-- Code in the answer to a task that asks for some.
pub data HasCode {F : Type 0} (task : TaskClassification F) (content : Text) : Type 0 where
  other_task : task.intent ≢ TaskIntent.coding → HasCode task content
  trivial_task : task.complexity ≡ TaskComplexity.trivial → HasCode task content
  code_block : Occurs (codes "```") content → HasCode task content
  four_spaces : Occurs (codes "    ") content → HasCode task content
  short_answer : len content ≤ 50 → HasCode task content

-- `lower` is the text in lower case.
pub record Good {F : Type 0} (lower : Text → Text) (gate : HeuristicQualityGate)
    (task : TaskClassification F) (content : Text) : Type 0 where
  pub long_enough : gate.min_length ≤ len (trim content)
  pub no_refusal : All (λ phrase. ¬ Occurs phrase (lower content)) refusals
  pub has_code : HasCode task content
  pub not_brief : minimum task.complexity ≤ len (trim content)
