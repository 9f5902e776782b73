-- ===== src/Analysis/Services.antt =====
-- CommentAnalyzer and ScriptAnalyzer of app/analysis/services.py, with a sequential RagRuntime.
pub mod Owner
pub mod Turns
pub mod Complete
use hate_speech_rag_service.Common.{ℕ, String, Bool, Option, none, some, List, [], ◌∷◌}
use hate_speech_rag_service.Common.Json.{JsonDict, int}
use hate_speech_rag_service.Db.Database.{Database}
use hate_speech_rag_service.Analysis.Models.{
  SourceType, AnalysisItem, AnalysisOutcome, StepAttemptContext,
}
use hate_speech_rag_service.Analysis.ResultStore.{
  ResultKind, comment, script, Progress, load_comment_items, load_script_items, reconcile, persist,
  log_progress,
}
use hate_speech_rag_service.Analysis.Executor.{Classified}
use hate_speech_rag_service.Analysis.Sequential.{
  RuntimeMetrics, Turn, first_counters, SequentialEnd, finished, shutdown, stale, aborted,
  run_sequential,
}

-- How `analyze` ends: with the step's metrics, or with an exception: a WorkerShutdownRequested, a
-- StaleStepExecution, or one of the classification; what was committed stays.
pub data AnalyzeEnd : Type 0 where
  analyzed : JsonDict → Database → AnalyzeEnd
  shut_down superseded raised : Database → AnalyzeEnd

abbrev pub persist_outcome :
    StepAttemptContext → ResultKind → AnalysisOutcome → Database → Option Database
persist_outcome context kind o db = elim (persist context kind o db) [
  | none ↦ none
  | some (inserted, after) ↦ some after
]

-- `{"total": total, **payload}`
abbrev pub log_total : StepAttemptContext → ℕ → JsonDict → Database → Option Database
log_total context total payload = log_progress context (("total", int total) ∷ payload)

unfoldable pub load_items : StepAttemptContext → ResultKind → Database → ℕ × List AnalysisItem
unfolding load_comment_items load_script_items
load_items context comment db = load_comment_items context db
load_items context script db = load_script_items context db

abbrev pub total_key : ResultKind → String
total_key comment = "comments_analyzed"
total_key script = "script_segments_analyzed"

-- The metrics that `analyze` returns.
abbrev pub finish_analysis :
    StepAttemptContext → ResultKind → ℕ → Database → Option (Progress × Database) → AnalyzeEnd
finish_analysis context kind total db none = superseded db
finish_analysis context kind total db (some (progress, after)) =
    analyzed
      ((total_key kind, int total)
        ∷ ("succeeded", int progress.succeeded)
        ∷ ("failed", int progress.failed)
        ∷ [])
      after

-- What follows the run of the items.
unfoldable pub after_run : StepAttemptContext → ResultKind → ℕ → SequentialEnd → AnalyzeEnd
unfolding reconcile
after_run context kind total (finished db) =
    finish_analysis context kind total db (reconcile context kind total db)
after_run context kind total (shutdown db) = shut_down db
after_run context kind total (stale db) = superseded db
after_run context kind total (aborted db) = raised db

module _ (item_concurrency started : ℕ) (metrics : RuntimeMetrics)
    (classify : AnalysisItem → Classified) (turns : ℕ → Turn) where
  unfoldable pub analyze : StepAttemptContext → ResultKind → Database → AnalyzeEnd
  unfolding load_items after_run run_sequential
  analyze context kind db =
      let (total, items) = load_items context kind db in
      elim (reconcile context kind total db) [
        | none ↦ superseded db
        | some (progress, ready) ↦ after_run context kind total (
            run_sequential item_concurrency started metrics (persist_outcome context kind)
              (log_total context total) classify turns 0 items (first_counters started metrics)
              ready)
      ]
