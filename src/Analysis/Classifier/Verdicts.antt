-- ===== src/Analysis/Classifier/Verdicts.antt =====
-- What a sound result stores.
use hate_speech_rag_service.Common.{
  ℕ, ◌≤◌, ◌<◌, String, Bool, true, false, Option, none, some, List, [], ◌∷◌, ◌≡◌, ◌≢◌, ◌⊎◌, inl,
  inr, refl, ap, arith, All,
}
use hate_speech_rag_service.Common.Json.{Json, obj, get_field}
use hate_speech_rag_service.Analysis.Models.{AnalysisItem, AnalysisOutcome}
use hate_speech_rag_service.Analysis.Executor.{Classified, outcome, raises}
use hate_speech_rag_service.Analysis.Validator.{
  validate_fields, contains, allowed_categories, string_list,
}
use hate_speech_rag_service.Analysis.Validator.Rules.{IsAcceptable, validate_fields_lem}
use hate_speech_rag_service.Analysis.Classification.{
  ClassificationResult, Answer, classified, succeeded_outcome, bool_of, texts_of, text_of,
  succeeded_values,
}

-- A result is of a valid payload, at one of the attempts before `bound`.
abbrev pub IsSound : ℕ → Answer → Type 0
IsSound bound (classified r) = ((validate_fields r.payload).valid ≡ true) × (r.attempts < bound)
IsSound bound _ = Unit

of_outcome : AnalysisOutcome → Classified → AnalysisOutcome
of_outcome other (outcome o) = o
of_outcome other raises = other

pub outcome_same : (a b : AnalysisOutcome) → outcome a ≡ outcome b → a ≡ b
unfolding of_outcome
outcome_same a b e = ap (of_outcome a) e

-- What a succeeded outcome stores: a verdict with categories that agree with it, and a reason.
pub record IsVerdict (o : AnalysisOutcome) : Type 0 where
  pub hate : Bool
  pub hate_stored : o.result_values.is_hate_speech ≡ some hate
  pub categories : List String
  pub categories_stored : o.result_values.categories ≡ some categories
  pub known : All (λ c. contains allowed_categories c ≡ true) categories
  pub agree :
      ((hate ≡ false) × (categories ≡ "unclassified" ∷ []))
      ⊎ ((hate ≡ true) × (categories ≢ []) × (contains categories "unclassified" ≡ false))
  pub reasoning : String
  pub reasoning_stored : o.result_values.reasoning ≡ some reasoning
  pub bounded : o.validation_attempts ≤ 2

agreement :
    (hate : Bool) (categories : List String)
    → (hate ≡ false → categories ≡ "unclassified" ∷ [])
    → (hate ≡ true → categories ≢ [])
    → (hate ≡ true → contains categories "unclassified" ≡ false)
    → ((hate ≡ false) × (categories ≡ "unclassified" ∷ []))
      ⊎ ((hate ≡ true) × (categories ≢ []) × (contains categories "unclassified" ≡ false))
agreement true categories calm named plain = inr (refl, named refl, plain refl)
agreement false categories calm named plain = inl (refl, calm refl)

texts_of_list :
    (j : Option Json) (names : List String) → string_list j ≡ some names → texts_of j ≡ some names
texts_of_list (some (Json.arr items)) names h = h
texts_of_list none names h = absurd (ground arith)
texts_of_list (some Json.null) names h = absurd (ground arith)
texts_of_list (some (Json.bool b)) names h = absurd (ground arith)
texts_of_list (some (Json.int n)) names h = absurd (ground arith)
texts_of_list (some (Json.number n)) names h = absurd (ground arith)
texts_of_list (some (Json.str t)) names h = absurd (ground arith)
texts_of_list (some (obj f)) names h = absurd (ground arith)

pub succeeded_outcome-IsVerdict :
    (item : AnalysisItem) (r : ClassificationResult)
    → IsSound 3 (classified r)
    → IsVerdict (succeeded_outcome item r)
unfolding succeeded_outcome succeeded_values
succeeded_outcome-IsVerdict item r h =
    let a : IsAcceptable r.payload = (validate_fields_lem r.payload).0 h.0 in
    record {
      hate = a.hate;
      hate_stored = ap bool_of a.hate_read;
      categories = a.categories;
      categories_stored =
          texts_of_list (get_field "categories" r.payload) a.categories a.categories_read;
      known = a.known;
      agree = agreement a.hate a.categories a.calm a.named a.classified;
      reasoning = a.reasoning;
      reasoning_stored = ap text_of a.reasoning_read;
      bounded = omega (arith, h.1);
    }
