-- ===== src/Jobs/HandlerTests.antt =====
-- A small attempt of the analysis of comments, and the theorem on it.
use hate_speech_rag_service.Common.{ℕ, String, false, none, some, List, [], ◌∷◌}
use hate_speech_rag_service.Common.Errors.{DomainError, domain_error, Result, error}
use hate_speech_rag_service.Db.JobRows.{JobStatus, AnalysisJob, JobStep, StepStatus}
use hate_speech_rag_service.Db.Content.{
  VideoMetadataSnapshot, CommentSnapshot, TranscriptSnapshot, TranscriptSegment,
}
use hate_speech_rag_service.Db.Results.{AnalysisRun}
use hate_speech_rag_service.Db.Database.{Database, empty}
use hate_speech_rag_service.Jobs.Repository.{new_job, new_step}
use hate_speech_rag_service.Jobs.Orchestrator.{Outcome}
use hate_speech_rag_service.Analysis.Models.{SourceType}
use hate_speech_rag_service.Analysis.Classification.{Answer, rejected}
use hate_speech_rag_service.Analysis.Sequential.{RuntimeMetrics, Turn}
use hate_speech_rag_service.Jobs.Handlers.{Analyzer}

abbrev job : AnalysisJob
job = new_job "dQw4w9WgXcQ" "dQw4w9WgXcQ" none [] empty

abbrev pending_step : JobStep
pending_step = record (new_step 7 1 "analyze_comments" false) { attempt_count = 1 }

abbrev collection : JobStep
collection = record (new_step 6 1 "collect_comments" false) { status = StepStatus.succeeded }

abbrev new_comment : CommentSnapshot
new_comment = record {
  id = 31;
  job_id = 1;
  youtube_video_id = "dQw4w9WgXcQ";
  youtube_comment_id = "c1";
  parent_youtube_comment_id = none;
  parent_comment_snapshot_id = none;
  is_reply = false;
  reply_depth = 0;
  author_display_name = none;
  author_channel_id = none;
  text_display = none;
  text_original = some "댓글";
  like_count = none;
  reply_count = none;
  published_at = none;
  updated_at = none;
  raw_payload = none;
  collected_at = 4;
}

abbrev no_metrics : RuntimeMetrics
no_metrics = record { embedding_retries = 0; llm_retries = 0; input_tokens = 0; output_tokens = 0 }

abbrev quiet_turns : ℕ → Turn
quiet_turns i = record { stop = false; embedding_retries = 0; llm_retries = 0; now = 6000 }

abbrev reject_all : String → SourceType → Answer
reject_all text source_type = rejected "LLM_OUTPUT_INVALID" "no JSON"

abbrev analysis_run : AnalysisRun
analysis_run = record {
  id = 20;
  job_id = 1;
  youtube_video_id = "dQw4w9WgXcQ";
  status = JobStatus.running;
  llm_provider = "anthropic";
  llm_model = "model";
  embedding_provider = "openai";
  embedding_model = "model";
  example_vector_collection = "examples";
  definition_vector_collection = "definitions";
  definition_corpus_version = none;
  retriever_config = [];
  prompt_versions = [];
  started_at = 3;
  finished_at = none;
}

abbrev ready : Database
ready = record empty {
  analysis_jobs = job ∷ [];
  job_steps = collection ∷ pending_step ∷ [];
  comment_snapshots = new_comment ∷ [];
  analysis_runs = analysis_run ∷ [];
  now = 9;
  next_id = 50;
}

abbrev unavailable : DomainError
unavailable = domain_error "YOUTUBE_API_ERROR" "YouTube API 요청에 실패했습니다." 400

abbrev no_metadata : AnalysisJob → Database → Result DomainError VideoMetadataSnapshot × Database
no_metadata j db = (error unavailable, db)

abbrev no_comments : AnalysisJob → Database → Result DomainError (List CommentSnapshot) × Database
no_comments j db = (error unavailable, db)

abbrev no_transcript :
    AnalysisJob
    → Database
    → Result DomainError (TranscriptSnapshot × List TranscriptSegment) × Database
no_transcript j db = (error unavailable, db)

abbrev no_scripts : Analyzer
no_scripts context db = (error Outcome.unexpected_error, db)

abbrev same_run : AnalysisJob → ℕ → ℕ → AnalysisRun
same_run j id now = analysis_run
