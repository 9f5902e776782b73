-- ===== src/Analysis/RunTests.antt =====
-- A reply of the model, and the theorem on classifications at concrete inputs.
use hate_speech_rag_service.Common.{
  ℕ, String, Bool, true, false, Option, none, some, List, [], ◌≡◌, refl, ◌⊎◌, is_some,
}
use hate_speech_rag_service.Common.Json.{
  Json, Fields, field, end, null, bool, str, arr, obj, nil, cons,
}
use hate_speech_rag_service.Db.Results.{ResultStatus}
use hate_speech_rag_service.Analysis.Models.{
  SourceType, AnalysisItem, AnalysisOutcome, RetrievalBundle,
}
use hate_speech_rag_service.Analysis.Classification.{classify_item, succeeded_outcome}
use hate_speech_rag_service.Analysis.Retriever.{Embedded, vector}
use hate_speech_rag_service.Analysis.Reply.{OutputError}
use hate_speech_rag_service.Analysis.Classifier.{
  Prompt, Completion, completed, ClassifierConfig, classify_text,
}
use hate_speech_rag_service.Analysis.Classifier.Verdicts.{IsVerdict}
use hate_speech_rag_service.Analysis.Classifier.Sound.{classify_item-IsVerdict}
use hate_speech_rag_service.Analysis.Validator.{has_hangul}

abbrev answer : Fields
answer = field "input_text" (str "댓글") (
    field "is_hate_speech" (bool false) (
      field "categories" (arr (cons (str "unclassified") nil)) (
        field "target_group" null (
          field "hate_type" null (
            field "reasoning" (str "혐오 표현이 없다.") (
              field "similar_cases_used" (arr nil)
                (field "definition_docs_used" (arr nil) end)))))))

abbrev never : ℕ → Bool
never n = false

abbrev retrieve_nothing :
    String → (taxonomy_n authoritative_n example_n : ℕ) → Embedded RetrievalBundle
retrieve_nothing query t a e =
    vector (record { taxonomy = []; authoritative = []; examples = []; failures = [] })

abbrev reply : Prompt → Completion
reply prompt = completed (record {
  text = "{}";
  model = "model";
  usage = record { input_tokens = none; output_tokens = none };
})

abbrev load_answer : String → Option Json
load_answer text = some (obj answer)

abbrev show_nothing : List OutputError → String
show_nothing errors = "()"

abbrev config : ClassifierConfig
config = record {
  taxonomy_k = 4;
  definition_k = 4;
  example_k = 6;
  example_min_similarity = 400000;
  definition_corpus_version = "v1";
}

abbrev item : AnalysisItem
item = record { source_id = 31; source_type = SourceType.comment; text = "댓글" }

abbrev answered : AnalysisOutcome
answered = succeeded_outcome item (record {
  payload = answer;
  prompt_version = "category-rag-v0.3.1";
  model = "model";
  usage = record { input_tokens = none; output_tokens = none };
  attempts = 1;
  rag_context_status = "unavailable";
  example_collection = "hate_speech_examples";
  definition_collection = "hate_speech_authoritative";
  definition_corpus_version = "v1";
})

classify_item-IsVerdict_example :
    (answered.source_id ≡ 31)
    × (((answered.status ≡ ResultStatus.failed)
          × (is_some answered.result_values.error_code ≡ true))
        ⊎ ((answered.status ≡ ResultStatus.succeeded) × IsVerdict answered))
unfolding classify_item classify_text succeeded_outcome has_hangul
classify_item-IsVerdict_example =
    classify_item-IsVerdict never retrieve_nothing reply load_answer show_nothing config item
      answered refl
