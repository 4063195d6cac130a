-- ===== src/Gateway/Quality.antt =====
-- The heuristic gate of ngenorca-gateway/src/orchestration/quality.rs. A text is the list of its code points.
-- The arithmetic of `f64` and the table of lower case are arguments; the text of a reason is kept as what it
-- is made from.
pub mod Occurs
pub mod Good
pub mod Accepted
mod Tests
use ngen_orca.Core.Orchestration.{
  TaskClassification, TaskComplexity, TaskIntent, complexity_rank, trivial, simple, moderate,
  complex, expert,
}
use ngen_orca.Base.Select.{find}
use ngen_orca.Identity.Texts.{Text, trim, is_whitespace}
use ngen_orca.Base.{
  ℕ, true, Option, List, Bool, if◌then◌else◌, codes, ltb, ◌∷◌, false, ◌&&◌, get_or, [], ◌+◌, any,
  ◌||◌, leb, some, same, length, not, suc, none,
}
use ngen_orca.Core.Error.{contains}

pub record Floats (F : Type 0) : Type 0 where
  pub of_nat : ℕ → F
  pub add : F → F → F
  pub sub : F → F → F
  pub mul : F → F → F
  pub div : F → F → F
  pub min_of : F → F → F
  pub clamp : F → F → F → F
  pub less : F → F → Bool

-- `min_length` of `HeuristicQualityGate`, whose other fields are not read.
pub record HeuristicQualityGate : Type 0 where
  pub min_length : ℕ
  pub max_escalations : ℕ
  pub auto_accept_learned : Bool

unfoldable pub default_gate : HeuristicQualityGate
default_gate = record { min_length = 10; max_escalations = 2; auto_accept_learned = true }

pub data Reason : Type 0 where
  too_short : ℕ → ℕ → Reason
  refusal : Text → Reason
  no_code_block : Reason
  too_brief : TaskComplexity → ℕ → ℕ → Reason

pub data QualityVerdict (F : Type 0) : Type 0 where
  accept : Option F → QualityVerdict F
  escalate : Reason → QualityVerdict F
  augment : Reason → Text → QualityVerdict F

unfoldable pub refusal_phrases : List Text
refusal_phrases =
    codes "i can't"
    ∷ codes "i cannot"
    ∷ codes "i don't know"
    ∷ codes "i'm not sure"
    ∷ codes "i am unable"
    ∷ codes "i'm unable"
    ∷ codes "as an ai"
    ∷ codes "as a language model"
    ∷ codes "i don't have access"
    ∷ codes "não consigo"
    ∷ codes "não sei"
    ∷ codes "não tenho"
    ∷ codes "não posso"
    ∷ codes "como modelo de linguagem"
    ∷ codes "desculpa, mas"
    ∷ []

-- `str::len`: the bytes in UTF-8.
abbrev pub len_utf8 : ℕ → ℕ
len_utf8 c = if ltb c 128 then 1 else if ltb c 2048 then 2 else if ltb c 65536 then 3 else 4

abbrev pub len : Text → ℕ
len [] = 0
len (c ∷ s) = len_utf8 c + len s

abbrev pub is_coding : TaskIntent → Bool
is_coding TaskIntent.coding = true
is_coding _ = false

unfoldable pub min_for_complexity : TaskComplexity → ℕ
min_for_complexity trivial = 5
min_for_complexity simple = 20
min_for_complexity moderate = 50
min_for_complexity complex = 100
min_for_complexity expert = 200

-- `split_whitespace`, where `word` is what is read of a word, the last character first.
abbrev pub close_word : Text → List Text → List Text
close_word [] rest = rest
close_word (c ∷ word) rest = (c ∷ word) ∷ rest

unfoldable pub words_from : Text → Text → List Text
words_from word [] = close_word word []
words_from word (c ∷ s) =
    let more = words_from (c ∷ word) s in
    let next = words_from [] s in if is_whitespace c then close_word word next else more

-- How many words differ.
unfoldable pub distinct_words : List Text → ℕ
distinct_words [] = 0
distinct_words (w ∷ ws) = let n = distinct_words ws in if any (same w) ws then n else suc n

module _ {F : Type 0} (fl : Floats F) where
  abbrev tenths : ℕ → F
  tenths n = fl.div (fl.of_nat n) (fl.of_nat 10)

  abbrev bonus_if : Bool → ℕ → F → F
  bonus_if b n score = if b then fl.add score (tenths n) else score

  unfoldable pub compute_quality_score : Text → TaskClassification F → F
  compute_quality_score content task =
      let length_factor =
        fl.min_of (fl.div (fl.of_nat (len content)) (fl.of_nat 500)) (fl.of_nat 1) in
      let long = fl.add (tenths 5) (fl.mul length_factor (tenths 2)) in
      let structured =
        bonus_if
          (contains content (codes "#")
            || contains content (codes "- ")
            || contains content (codes "* "))
          1 long in
      let fenced = contains content (codes "```") in
      let coded = bonus_if (is_coding task.intent && fenced) 1 (bonus_if fenced 1 structured) in
      let words = words_from [] content in
      let diversity = fl.div (fl.of_nat (distinct_words words)) (fl.of_nat (length words)) in
      let repetitive = ltb 10 (length words) && fl.less diversity (tenths 3) in
      fl.clamp (if repetitive then fl.sub coded (tenths 2) else coded) (fl.of_nat 0) (fl.of_nat 1)

  module _ (to_lowercase : Text → Text) (gate : HeuristicQualityGate) where
    abbrev pub lacks_code : TaskClassification F → Text → Bool
    lacks_code task content =
        is_coding task.intent
        && leb 1 (complexity_rank task.complexity)
        && not (contains content (codes "```"))
        && not (contains content (codes "    "))
        && ltb 50 (len content)

    -- From the check for code on.
    unfoldable pub judge_content : TaskClassification F → Text → QualityVerdict F
    judge_content task content =
        if lacks_code task content
        then augment no_code_block content
        else if ltb (len (trim content)) (min_for_complexity task.complexity)
        then augment
            (too_brief task.complexity (len (trim content)) (min_for_complexity task.complexity))
            content
        else accept (some (compute_quality_score content task))

    unfoldable pub evaluate : TaskClassification F → Option Text → QualityVerdict F
    evaluate task response =
        let content = get_or response [] in
        if ltb (len (trim content)) gate.min_length
        then escalate (too_short (len (trim content)) gate.min_length)
        else elim (find (contains (to_lowercase content)) refusal_phrases) [
          | some phrase ↦ escalate (refusal phrase)
          | none ↦ judge_content task content
        ]
