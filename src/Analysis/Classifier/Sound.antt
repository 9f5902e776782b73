-- ===== src/Analysis/Classifier/Sound.antt =====
-- What can reach the results table from a model's reply.
use hate_speech_rag_service.Common.{
  ℕ, zero, suc, ◌+◌, ◌<◌, String, Bool, true, false, Option, List, [], ◌≡◌, ◌⊎◌, inl, inr, refl, ap,
  sym, arith, if◌then◌else◌, is_some, nat_eq, length, subst,
}
use hate_speech_rag_service.Common.Json.{Json}
use hate_speech_rag_service.Db.Results.{ResultStatus}
use hate_speech_rag_service.Analysis.Models.{
  SourceType, AnalysisItem, AnalysisOutcome, RetrievalBundle,
}
use hate_speech_rag_service.Analysis.Executor.{outcome, raises}
use hate_speech_rag_service.Analysis.Retriever.{Embedded, vector, cancelled, failed, invalid_key}
use hate_speech_rag_service.Analysis.Reply.{
  OutputError, Checked, accepted, refused, crashed, validated_payload,
}
use hate_speech_rag_service.Analysis.Classification.{
  Answer, classified, rejected, classify_item, succeeded_outcome, failed_outcome,
}
use hate_speech_rag_service.Analysis.Classifier.{
  Prompt, LlmResponse, Completion, completed, retry_cancelled, failed_request, key_rejected,
  request_error, ClassifierConfig, after_check, after_request, attempts, classify_with,
  classify_text, retry_prompt, unavailable, retrieval_query,
}
use hate_speech_rag_service.Analysis.Reply.Valid.{validated_payload-accepted}
use hate_speech_rag_service.Analysis.Classifier.Verdicts.{
  IsSound, IsVerdict, outcome_same, succeeded_outcome-IsVerdict,
}

module _ (should_stop : ℕ → Bool)
    (retrieve : String → (taxonomy_n authoritative_n example_n : ℕ) → Embedded RetrievalBundle)
    (complete : Prompt → Completion) (loads : String → Option Json)
    (show_errors : List OutputError → String) (config : ClassifierConfig) where
  after_check-IsSound :
      (bound attempt : ℕ) (status : String) (response : LlmResponse)
      (next : List OutputError → Answer) (c : Checked)
      → attempt < bound
      → ((found : List OutputError) → IsSound bound (next found))
      → validated_payload loads response.text ≡ c
      → IsSound bound (
          after_check should_stop retrieve complete loads show_errors config attempt status response
            next c)
  after_check-IsSound bound attempt status response next crashed h k e = tt
  after_check-IsSound bound attempt status response next (refused found) h k e = k found
  after_check-IsSound bound attempt status response next (accepted p v) h k e =
      (validated_payload-accepted loads response.text p v e, h)

  after_request-IsSound :
      (bound attempt : ℕ) (status : String) (next : List OutputError → Answer) (c : Completion)
      → attempt < bound
      → ((found : List OutputError) → IsSound bound (next found))
      → IsSound bound (
          after_request should_stop retrieve complete loads show_errors config attempt status next
            c)
  unfolding after_request
  after_request-IsSound bound attempt status next retry_cancelled h k = tt
  after_request-IsSound bound attempt status next (key_rejected provider) h k = tt
  after_request-IsSound bound attempt status next (request_error code message) h k = tt
  after_request-IsSound bound attempt status next failed_request h k = tt
  after_request-IsSound bound attempt status next (completed response) h k =
      after_check-IsSound bound attempt status response next (validated_payload loads response.text)
        h k refl

  attempts-IsSound :
      (left attempt : ℕ) (errors : List OutputError) (status : String) (prompt : Prompt)
      → IsSound (attempt + left) (
          attempts should_stop retrieve complete loads show_errors config left attempt errors status
            prompt)
  unfolding attempts
  attempts-IsSound zero attempt errors status prompt = tt
  attempts-IsSound (suc left) attempt errors status prompt = go (should_stop attempt) _ (
      after_request-IsSound (attempt + suc left) attempt status
        (λ found.
          attempts should_stop retrieve complete loads show_errors config left (suc attempt) found
            status (retry_prompt prompt found))
        (complete prompt) (omega arith)
        (λ found.
          subst
            (λ n. IsSound n (
              attempts should_stop retrieve complete loads show_errors config left (suc attempt)
                found status (retry_prompt prompt found)))
            (omega arith)
            (attempts-IsSound left (suc attempt) found status (retry_prompt prompt found))))
    where
      go :
          (b : Bool) (a : Answer)
          → IsSound (attempt + suc left) a
          → IsSound (attempt + suc left) (if b then Answer.shut_down else a)
      go true a h = tt
      go false a h = h

  classify_with-IsSound :
      (input_text : String) (source_type : SourceType) (bundle : RetrievalBundle)
      → IsSound 3 (
          classify_with should_stop retrieve complete loads show_errors config input_text
            source_type bundle)
  unfolding classify_with
  classify_with-IsSound input_text source_type bundle =
      go (nat_eq (length bundle.failures) 3) _ (attempts-IsSound 2 1 [] _ _)
    where
      go : (b : Bool) (a : Answer) → IsSound 3 a → IsSound 3 (if b then unavailable else a)
      go true a h = tt
      go false a h = h

  classify_text-IsSound :
      (text : String) (source_type : SourceType)
      → IsSound 3
          (classify_text should_stop retrieve complete loads show_errors config text source_type)
  unfolding classify_text
  classify_text-IsSound text source_type = go (should_stop 0) (
      retrieve (retrieval_query text source_type) config.taxonomy_k config.definition_k
        config.example_k)
    where
      go :
          (b : Bool) (e : Embedded RetrievalBundle)
          → IsSound 3 (elim b [
            | true ↦ Answer.shut_down
            | false ↦ elim e [
              | cancelled ↦ Answer.shut_down
              | invalid_key provider ↦ Answer.invalid_key provider
              | failed ↦ unavailable
              | vector bundle ↦
                  classify_with should_stop retrieve complete loads show_errors config text
                    source_type bundle
            ]
          ])
      go true e = tt
      go false cancelled = tt
      go false (invalid_key provider) = tt
      go false failed = tt
      go false (vector bundle) = classify_with-IsSound text source_type bundle

  -- Whatever the model replies, an outcome that leaves the classification is that of its item, and
  -- either failed with an error code, or succeeded after at most two attempts with a verdict, a
  -- reason, and allowed categories: only "unclassified" without hate speech, and with it at least one
  -- category and not "unclassified".
  pub classify_item-IsVerdict :
      (item : AnalysisItem) (o : AnalysisOutcome)
      → classify_item (classify_text should_stop retrieve complete loads show_errors config) item
        ≡ outcome o
      → (o.source_id ≡ item.source_id)
        × (((o.status ≡ ResultStatus.failed) × (is_some o.result_values.error_code ≡ true))
            ⊎ ((o.status ≡ ResultStatus.succeeded) × IsVerdict o))
  unfolding classify_item succeeded_outcome
  classify_item-IsVerdict item o h =
      go
        (classify_text should_stop retrieve complete loads show_errors config item.text
          item.source_type)
        (classify_text-IsSound item.text item.source_type) h
    where
      go :
          (a : Answer)
          → IsSound 3 a
          → elim a [
            | classified result ↦ outcome (succeeded_outcome item result)
            | rejected code message ↦ outcome (failed_outcome item code message)
            | Answer.shut_down ↦ raises
            | Answer.broken ↦ raises
            | Answer.invalid_key provider ↦ raises
          ]
            ≡ outcome o
          → (o.source_id ≡ item.source_id)
            × (((o.status ≡ ResultStatus.failed) × (is_some o.result_values.error_code ≡ true))
                ⊎ ((o.status ≡ ResultStatus.succeeded) × IsVerdict o))
      go (classified r) sound e =
          let same : succeeded_outcome item r ≡ o = outcome_same (succeeded_outcome item r) o e in
          (
            ap (λ x. x.source_id) (sym same),
            inr (
              ap (λ x. x.status) (sym same),
              subst IsVerdict same (succeeded_outcome-IsVerdict item r sound),
            ),
          )
      go (rejected code message) sound e =
          let same : failed_outcome item code message ≡ o =
            outcome_same (failed_outcome item code message) o e in
          (
            ap (λ x. x.source_id) (sym same),
            inl (
              ap (λ x. x.status) (sym same),
              ap (λ x. is_some x.result_values.error_code) (sym same),
            ),
          )
      go Answer.shut_down sound e = absurd (ground arith)
      go Answer.broken sound e = absurd (ground arith)
      go (Answer.invalid_key provider) sound e = absurd (ground arith)
