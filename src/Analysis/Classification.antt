-- ===== src/Analysis/Classification.antt =====
-- `_classify` of app/analysis/executor.py, and ClassificationResult of app/analysis/rag_classifier.py.
use hate_speech_rag_service.Common.{ℕ, String, Bool, Option, none, some, List, or_else}
use hate_speech_rag_service.Common.Json.{Json, Fields, str, bool, arr, nil, obj, get_field, strings}
use hate_speech_rag_service.Db.Results.{ResultStatus, ResultValues}
use hate_speech_rag_service.Analysis.Models.{SourceType, AnalysisItem, AnalysisOutcome, Usage}
use hate_speech_rag_service.Analysis.Executor.{Classified, outcome, raises}

pub record ClassificationResult : Type 0 where
  pub payload : Fields
  pub prompt_version : String
  pub model : String
  pub usage : Usage
  pub attempts : ℕ
  pub rag_context_status : String
  pub example_collection : String
  pub definition_collection : String
  pub definition_corpus_version : String

-- How `classify_text` ends: a result, a ClassificationError with its code and message, a request to
-- shut down, an ApiKeyInvalidError of a provider, or any other exception.
pub data Answer : Type 0 where
  classified : ClassificationResult → Answer
  rejected : (code message : String) → Answer
  shut_down broken : Answer
  invalid_key : String → Answer

-- The columns take a value of another JSON type for no value; the validator lets none through.
abbrev pub bool_of : Option Json → Option Bool
bool_of (some (bool b)) = some b
bool_of _ = none

abbrev pub text_of : Option Json → Option String
text_of (some (str s)) = some s
text_of _ = none

abbrev pub texts_of : Option Json → Option (List String)
texts_of (some (arr items)) = strings items
texts_of _ = none

unfoldable pub succeeded_values : ClassificationResult → ResultValues
unfolding get_field
succeeded_values result = record {
  is_hate_speech = bool_of (get_field "is_hate_speech" result.payload);
  categories = texts_of (get_field "categories" result.payload);
  target_group = text_of (get_field "target_group" result.payload);
  hate_type = text_of (get_field "hate_type" result.payload);
  reasoning = text_of (get_field "reasoning" result.payload);
  similar_cases_used = or_else (get_field "similar_cases_used" result.payload) (some (arr nil));
  definition_docs_used = or_else (get_field "definition_docs_used" result.payload) (some (arr nil));
  rag_context_status = some result.rag_context_status;
  prompt_version = some result.prompt_version;
  model_name = some result.model;
  raw_response = some (obj result.payload);
  error_code = none;
  error_message = none;
}

abbrev pub failed_values : String → String → ResultValues
failed_values code message = record {
  is_hate_speech = none;
  categories = none;
  target_group = none;
  hate_type = none;
  reasoning = none;
  similar_cases_used = none;
  definition_docs_used = none;
  rag_context_status = none;
  prompt_version = none;
  model_name = none;
  raw_response = none;
  error_code = some code;
  error_message = some message;
}

abbrev pub no_usage : Usage
no_usage = record { input_tokens = none; output_tokens = none }

unfoldable pub succeeded_outcome : AnalysisItem → ClassificationResult → AnalysisOutcome
unfolding succeeded_values
succeeded_outcome item result = record {
  source_id = item.source_id;
  status = ResultStatus.succeeded;
  result_values = succeeded_values result;
  usage = result.usage;
  validation_attempts = result.attempts;
}

abbrev pub failed_outcome : AnalysisItem → String → String → AnalysisOutcome
failed_outcome item code message = record {
  source_id = item.source_id;
  status = ResultStatus.failed;
  result_values = failed_values code message;
  usage = no_usage;
  validation_attempts = 1;
}

unfoldable pub classify_item : (String → SourceType → Answer) → AnalysisItem → Classified
unfolding succeeded_outcome
classify_item classify_text item = elim (classify_text item.text item.source_type) [
  | classified result ↦ outcome (succeeded_outcome item result)
  | rejected code message ↦ outcome (failed_outcome item code message)
  | shut_down ↦ raises
  | broken ↦ raises
  | invalid_key provider ↦ raises
]
