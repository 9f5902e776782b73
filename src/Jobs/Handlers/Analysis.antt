-- ===== src/Jobs/Handlers/Analysis.antt =====
-- An attempt of the step that analyzes the comments, from its start to its result.
use hate_speech_rag_service.Common.{ℕ, String, false, List, nat_Eq, string_Eq, ◌≡◌}
use hate_speech_rag_service.Common.Json.{JsonDict}
use hate_speech_rag_service.Common.Errors.{DomainError, Result, ok, error}
use hate_speech_rag_service.Db.JobRows.{AnalysisJob}
use hate_speech_rag_service.Db.Content.{
  VideoMetadataSnapshot, CommentSnapshot, TranscriptSnapshot, TranscriptSegment,
}
use hate_speech_rag_service.Db.Results.{AnalysisRun}
use hate_speech_rag_service.Db.Database.{Database}
use hate_speech_rag_service.Jobs.Orchestrator.{Outcome, returned, HandlerRun}
use hate_speech_rag_service.Analysis.Models.{SourceType, StepAttemptContext}
use hate_speech_rag_service.Analysis.Classification.{Answer, classify_item}
use hate_speech_rag_service.Analysis.ResultStore.{comment, load_comment_items}
use hate_speech_rag_service.Analysis.ResultStore.Counters.{IsCounted}
use hate_speech_rag_service.Analysis.ResultStore.Resume.{is_loaded}
use hate_speech_rag_service.Analysis.Sequential.{RuntimeMetrics, Turn}
use hate_speech_rag_service.Analysis.Services.{analyze, AnalyzeEnd, analyzed, shut_down, superseded}
use hate_speech_rag_service.Jobs.Handlers.{Analyzer, done, analyze_comments}

-- The analyzer of the comments, where the exceptions of the classification have the outcome `broken`.
abbrev pub comment_analyzer_of : Outcome → (StepAttemptContext → Database → AnalyzeEnd) → Analyzer
comment_analyzer_of broken analyzer context db = elim (analyzer context db) [
  | analyzed metrics after ↦ (ok metrics, after)
  | shut_down after ↦ (error Outcome.shutdown_requested, after)
  | superseded after ↦ (error Outcome.stale_execution, after)
  | AnalyzeEnd.raised after ↦ (error broken, after)
]

-- A finished attempt: a succeeded result, committed, that leaves no comment open.
pub record IsAnalyzed (context : StepAttemptContext) (run : HandlerRun) : Type 0 where
  pub values : JsonDict
  pub succeeded : run.outcome ≡ returned (done values)
  pub kept : run.working ≡ run.committed
  pub complete : (id : ℕ) → is_loaded id (load_comment_items context run.committed).1 ≡ false
  pub counted : IsCounted context comment run.committed

module _ (show_id : ℕ → String)
    (metadata_collector : AnalysisJob
      → Database
      → Result DomainError VideoMetadataSnapshot × Database)
    (comment_collector : AnalysisJob
      → Database
      → Result DomainError (List CommentSnapshot) × Database)
    (transcript_collector : AnalysisJob
      → Database
      → Result DomainError (TranscriptSnapshot × List TranscriptSegment) × Database)
    (script_analyzer : Analyzer) (new_run : AnalysisJob → ℕ → ℕ → AnalysisRun) (broken : Outcome)
    (item_concurrency started_at : ℕ) (metrics : RuntimeMetrics)
    (classify_text : String → SourceType → Answer) (turns : ℕ → Turn) where
  -- The handler with the modelled analyzer.
  abbrev pub handler : AnalysisJob → Database → HandlerRun
  handler =
      analyze_comments show_id metadata_collector comment_collector transcript_collector
        (comment_analyzer_of broken (λ context db.
          analyze item_concurrency started_at metrics (classify_item classify_text) turns context
            comment db))
        script_analyzer new_run
