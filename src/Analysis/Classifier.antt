-- ===== src/Analysis/Classifier.antt =====
-- RagClassifier.classify_text of app/analysis/rag_classifier.py. A prompt is given by what
-- `build_category_prompt` and `_retry_prompt` put into its text. The readings of `should_stop` are
-- numbered, and a distance or similarity is in millionths. What is sent to the observability client
-- changes nothing.
pub mod Verdicts
pub mod Sound
use Prim.Native.String
use hate_speech_rag_service.Common.{
  ℕ, zero, suc, ◌+◌, String, Bool, true, false, ◌&&◌, Option, none, some, List, [], ◌∷◌, ◌++◌,
  if◌then◌else◌, filter, leb, nat_eq, length,
}
use hate_speech_rag_service.Common.Json.{Json}
use hate_speech_rag_service.Analysis.Models.{
  SourceType, DefinitionSearchResult, ExampleSearchResult, RetrievalBundle, Usage,
}
use hate_speech_rag_service.Analysis.Retriever.{Embedded, vector, cancelled, failed, invalid_key}
use hate_speech_rag_service.Analysis.Reply.{
  OutputError, Checked, accepted, refused, crashed, validated_payload,
}
use hate_speech_rag_service.Analysis.Classification.{
  ClassificationResult, Answer, classified, rejected,
}

abbrev pub prompt_version : String
prompt_version = "category-rag-v0.3.1"

pub record Prompt : Type 0 where
  pub input_text : String
  pub source_type : SourceType
  pub taxonomy_context : List DefinitionSearchResult
  pub authoritative_context : List DefinitionSearchResult
  pub example_context : List ExampleSearchResult
  -- The errors that each `_retry_prompt` has added.
  pub corrections : List (List OutputError)

pub record LlmResponse : Type 0 where
  pub text : String
  pub model : String
  pub usage : Usage

-- How `complete` ends.
pub data Completion : Type 0 where
  completed : LlmResponse → Completion
  retry_cancelled failed_request : Completion
  key_rejected : String → Completion
  request_error : (code message : String) → Completion

abbrev pub source_name : SourceType → String
source_name SourceType.comment = "comment"
source_name SourceType.reply = "reply"
source_name SourceType.script_segment = "script_segment"

-- `_retrieval_query`
unfoldable pub retrieval_query : String → SourceType → String
retrieval_query input_text source_type =
    String.◌++◌ input_text (String.◌++◌ "\nsource_type=" (source_name source_type))

-- `1 - distance >= minimum`, with minus infinity where there is no distance.
abbrev pub is_similar : ℕ → ExampleSearchResult → Bool
is_similar minimum example = elim example.distance [
  | none ↦ false
  | some distance ↦ leb (distance + minimum) 1000000
]

abbrev pub is_filled {ℓ} : {A : Type ℓ} → List A → Bool
is_filled [] = false
is_filled (_ ∷ _) = true

unfoldable pub context_status : List DefinitionSearchResult → List ExampleSearchResult → String
context_status definitions examples =
    if is_filled definitions && is_filled examples
    then "complete"
    else if is_filled examples
    then "example_only"
    else if is_filled definitions
    then "definition_only"
    else "unavailable"

-- `_retry_prompt`
abbrev pub retry_prompt : Prompt → List OutputError → Prompt
retry_prompt prompt errors = record prompt { corrections = prompt.corrections ++ errors ∷ [] }

pub record ClassifierConfig : Type 0 where
  pub taxonomy_k : ℕ
  pub definition_k : ℕ
  pub example_k : ℕ
  pub example_min_similarity : ℕ
  pub definition_corpus_version : String

abbrev pub unavailable : Answer
unavailable = rejected "RAG_RETRIEVAL_ERROR" "all RAG vector stores are unavailable"

module _ (should_stop : ℕ → Bool)
    (retrieve : String → (taxonomy_n authoritative_n example_n : ℕ) → Embedded RetrievalBundle)
    (complete : Prompt → Completion) (loads : String → Option Json)
    (show_errors : List OutputError → String) (config : ClassifierConfig) where
  abbrev pub invalid_output : List OutputError → Answer
  invalid_output errors =
      rejected "LLM_OUTPUT_INVALID"
        (String.◌++◌ "LLM output failed validation: " (show_errors errors))

  -- What follows a reply; `next` is the next attempt.
  abbrev pub after_check :
      (attempt : ℕ) → String → LlmResponse → (List OutputError → Answer) → Checked → Answer
  after_check attempt status response next crashed = Answer.broken
  after_check attempt status response next (refused found) = next found
  after_check attempt status response next (accepted payload validation) = classified (record {
    payload = payload;
    prompt_version = prompt_version;
    model = response.model;
    usage = response.usage;
    attempts = attempt;
    rag_context_status = status;
    example_collection = "hate_speech_examples";
    definition_collection = "hate_speech_authoritative";
    definition_corpus_version = config.definition_corpus_version;
  })

  -- The `except` clauses of a request.
  unfoldable pub after_request :
      (attempt : ℕ) → String → (List OutputError → Answer) → Completion → Answer
  unfolding validated_payload
  after_request attempt status next retry_cancelled = Answer.shut_down
  after_request attempt status next (key_rejected provider) = Answer.invalid_key provider
  after_request attempt status next (request_error code message) = rejected code message
  after_request attempt status next failed_request =
      rejected "LLM_ERROR" "LLM classification request failed"
  after_request attempt status next (completed response) =
      after_check attempt status response next (validated_payload loads response.text)

  -- The two attempts; `left` counts those that remain, and `errors` are those of the last one.
  unfoldable pub attempts : (left attempt : ℕ) → List OutputError → String → Prompt → Answer
  unfolding after_request
  attempts zero attempt errors status prompt = invalid_output errors
  attempts (suc left) attempt errors status prompt =
      if should_stop attempt
      then Answer.shut_down
      else after_request attempt status
          (λ found. attempts left (suc attempt) found status (retry_prompt prompt found))
          (complete prompt)

  -- What is classified with what was retrieved.
  unfoldable pub classify_with : String → SourceType → RetrievalBundle → Answer
  unfolding context_status attempts
  classify_with input_text source_type bundle =
      let examples = filter (is_similar config.example_min_similarity) bundle.examples in
      if nat_eq (length bundle.failures) 3
      then unavailable
      else attempts 2 1 [] (context_status (bundle.taxonomy ++ bundle.authoritative) examples)
          (record {
            input_text = input_text;
            source_type = source_type;
            taxonomy_context = bundle.taxonomy;
            authoritative_context = bundle.authoritative;
            example_context = examples;
            corrections = [];
          })

  unfoldable pub classify_text : String → SourceType → Answer
  unfolding retrieval_query classify_with
  classify_text input_text source_type = elim (should_stop 0) [
    | true ↦ Answer.shut_down
    | false ↦
        elim (retrieve (retrieval_query input_text source_type) config.taxonomy_k
          config.definition_k config.example_k) [
            | cancelled ↦ Answer.shut_down
            | invalid_key provider ↦ Answer.invalid_key provider
            | failed ↦ unavailable
            | vector bundle ↦ classify_with input_text source_type bundle
          ]
  ]
