-- ===== src/Analysis/Services/Complete.antt =====
-- An analysis that is not stopped is complete.
use hate_speech_rag_service.Common.{
  ℕ, String, Bool, true, false, some, [], ◌∷◌, nat_Eq, ◌≡◌, refl, arith, update_where,
}
use hate_speech_rag_service.Common.Json.{JsonDict, int}
use hate_speech_rag_service.Db.Results.{is_succeeded, is_failed}
use hate_speech_rag_service.Db.Database.{Database}
use hate_speech_rag_service.Jobs.Orchestrator.{is_current}
use hate_speech_rag_service.Analysis.Models.{
  SourceType, AnalysisItem, AnalysisOutcome, StepAttemptContext,
}
use hate_speech_rag_service.Analysis.Executor.{outcome}
use hate_speech_rag_service.Analysis.Classification.{
  Answer, classified, rejected, classify_item, succeeded_outcome, failed_outcome,
}
use hate_speech_rag_service.Analysis.ResultStore.{
  comment, load_comment_items, reconcile, count_status, reconciled, Progress,
}
use hate_speech_rag_service.Analysis.ResultStore.Counters.{IsCounted, reconcile-IsCounted}
use hate_speech_rag_service.Analysis.ResultStore.Resume.{is_loaded}
use hate_speech_rag_service.Analysis.Sequential.{RuntimeMetrics, Turn, first_counters}
use hate_speech_rag_service.Analysis.Services.{analyze, analyzed, after_run, load_items}
use hate_speech_rag_service.Analysis.Services.Owner.{IsOwned, update-IsOwned}
use hate_speech_rag_service.Analysis.Services.Turns.{is_open, owner-run_sequential}

-- A classification that ends with a result or a ClassificationError.
abbrev pub is_answer : Answer → Bool
is_answer (classified _) = true
is_answer (rejected _ _) = true
is_answer _ = false

classify_item-outcome :
    (classify_text : String → SourceType → Answer) (item : AnalysisItem)
    → is_answer (classify_text item.text item.source_type) ≡ true
    → (o : AnalysisOutcome) × (classify_item classify_text item ≡ outcome o)
      × (o.source_id ≡ item.source_id)
unfolding classify_item succeeded_outcome
classify_item-outcome classify_text item h = go (classify_text item.text item.source_type) refl h
  where
    go :
        (a : Answer)
        → classify_text item.text item.source_type ≡ a
        → is_answer a ≡ true
        → (o : AnalysisOutcome) × (classify_item classify_text item ≡ outcome o)
          × (o.source_id ≡ item.source_id)
    go (classified result) e k = (succeeded_outcome item result, rw (e, classify_item) refl, refl)
    go (rejected code message) e k =
        (failed_outcome item code message, rw (e, classify_item) refl, refl)
    go (Answer.shut_down) e k = absurd (ground arith)
    go (Answer.broken) e k = absurd (ground arith)
    go (Answer.invalid_key provider) e k = absurd (ground arith)

owner-reconcile :
    (context : StepAttemptContext) (total : ℕ) (db : Database)
    → IsOwned context db
    → (progress : Progress) × (after : Database) × (reconcile context comment total db
        ≡ some (progress, after))
      × IsOwned context after
      × ((id : ℕ) → is_open context after id ≡ is_open context db id)
unfolding reconcile load_comment_items
owner-reconcile context total db h =
    let succeeded = count_status context.run_id is_succeeded db.comment_analysis_results in
    let failed = count_status context.run_id is_failed db.comment_analysis_results in
    (
      record { total = total; succeeded = succeeded; failed = failed },
      record db {
        job_steps =
            update_where (is_current context.step_id context.expected_attempt)
              (reconciled total succeeded failed db.now) db.job_steps;
      },
      rw (h.1, reconcile) refl,
      update-IsOwned context (is_current context.step_id context.expected_attempt)
          (reconciled total succeeded failed db.now) db.job_steps (λ s. refl) (λ s. refl) h,
      λ id. refl,
    )

-- An analysis of comments whose attempt owns its step, that nobody stops, and whose classifications
-- all end with a result or a ClassificationError, ends by itself: then no comment of the job is left
-- without a result in the run, and the counters of the step are the numbers of stored results.
pub analyze-IsComplete :
    (item_concurrency started : ℕ) (metrics : RuntimeMetrics)
    (classify_text : String → SourceType → Answer) (turns : ℕ → Turn) (context : StepAttemptContext)
    (db : Database)
    → IsOwned context db
    → ((i : ℕ) → (turns i).stop ≡ false)
    → ((text : String) (source_type : SourceType)
        → is_answer (classify_text text source_type) ≡ true)
    → (values : JsonDict) × (after : Database) × (analyze item_concurrency started metrics
          (classify_item classify_text)
          turns
          context
          comment
          db
        ≡ analyzed values after)
      × ((id : ℕ) → is_loaded id (load_comment_items context after).1 ≡ false)
      × IsCounted context comment after
unfolding analyze load_items after_run
analyze-IsComplete item_concurrency started metrics classify_text turns context db owned undisturbed
      answers =
    let (total, items) = load_comment_items context db in
    let (progress, ready, reconciles, owned2, same) = owner-reconcile context total db owned in
    let (ran, finishes, owned3, left) =
      owner-run_sequential context total item_concurrency started metrics
        (classify_item classify_text) turns undisturbed
        (λ item. classify_item-outcome classify_text item (answers item.text item.source_type))
        items 0 (first_counters started metrics) ready owned2 in
    let (last, after, reconciles2, owned4, same2) = owner-reconcile context total ran owned3 in
    (
      ("comments_analyzed", int total)
          ∷ ("succeeded", int last.succeeded)
          ∷ ("failed", int last.failed)
          ∷ [],
      after,
      rw (reconciles, finishes, analyze) (rw (reconciles2, after_run) refl),
      λ id. ground (arith, same2 id, left id, same id),
      reconcile-IsCounted context comment total ran after last owned3.0 reconciles2,
    )
