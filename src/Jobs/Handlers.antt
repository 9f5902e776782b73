-- ===== src/Jobs/Handlers.antt =====
-- build_collection_analysis_handlers of app/jobs/production_pipeline.py and build_reporting_handlers of
-- app/reporting/pipeline.py. The collectors and analyzers are arguments there, too. A collector leaves
-- what it has added in the session also where it raises.
pub mod Started
pub mod Analysis
use Prim.Native.String
use mathlib.Core.List.{head?}
use hate_speech_rag_service.Common.{
  ℕ, suc, String, Bool, true, false, not, ◌&&◌, ◌||◌, Option, none, some, List, [], ◌∷◌, ◌++◌, ◌==◌,
  nat_Eq, string_Eq, if◌then◌else◌, filter, find?, any, length, update_where, sort_desc,
}
use hate_speech_rag_service.Common.Json.{JsonDict, int, str}
use hate_speech_rag_service.Common.Errors.{DomainError, domain_error, Result, ok, error}
use hate_speech_rag_service.Db.JobRows.{
  JobStatus, StepStatus, AnalysisJob, JobStep, ApiQuotaEvent, step_succeeded,
}
use hate_speech_rag_service.Db.Content.{
  VideoMetadataSnapshot, CommentSnapshot, TranscriptSnapshot, TranscriptSegment,
}
use hate_speech_rag_service.Db.Results.{AnalysisRun, CommentNetwork, ReportSnapshot}
use hate_speech_rag_service.Db.Database.{Database}
use hate_speech_rag_service.Jobs.Orchestrator.{
  StepResult, Outcome, returned, HandlerRun, Handlers, StepHandler, failed_result,
}
use hate_speech_rag_service.Analysis.Models.{StepAttemptContext}
use hate_speech_rag_service.Analysis.ResultStore.{is_segment_of}
use hate_speech_rag_service.Reporting.Network.{build}
use hate_speech_rag_service.Reporting.Report.{build_snapshot}

-- A handler that has not committed goes back to the database that it was given.
abbrev pub uncommitted : Outcome → Database → Database → HandlerRun
uncommitted outcome db working = record { outcome = outcome; committed = db; working = working }

abbrev pub done : JsonDict → StepResult
done metrics = record {
  status = StepStatus.succeeded;
  metrics = metrics;
  error_code = none;
  error_message = none;
}

abbrev pub skipped : String → Option String → StepResult
skipped code message = record {
  status = StepStatus.skipped;
  metrics = [];
  error_code = some code;
  error_message = message;
}

abbrev pub raised : DomainError → Outcome
raised e = Outcome.domain_error e.code e.message

-- `_quota_event`
unfoldable pub quota_event : AnalysisJob → String → String → Option String → Database → Database
quota_event job operation status error_code db = record db {
  api_quota_events =
      db.api_quota_events
      ++ record {
        job_id = some job.id;
        provider = "youtube";
        operation = operation;
        quota_cost = some 1;
        status = status;
        error_code = error_code;
        metadata_json = [];
        created_at = db.now;
      }
        ∷ [];
}

-- `_quota_status`
unfoldable pub quota_status : String → String
quota_status error_code =
    if error_code == "YOUTUBE_QUOTA_EXCEEDED"
    then "quota_exceeded"
    else if error_code == "YOUTUBE_RATE_LIMITED"
    then "rate_limited"
    else "failed"

-- `_run`: the run of the job that started last.
unfoldable pub latest_run : ℕ → Database → Option AnalysisRun
latest_run job_id db =
    head?
      (sort_desc (λ run. run.started_at) (filter (λ run. run.job_id == job_id) db.analysis_runs))

abbrev pub no_run : DomainError
no_run = domain_error "ANALYSIS_RUN_NOT_FOUND" "분석 실행 정보가 없습니다." 400

abbrev pub no_step : DomainError
no_step = domain_error "JOB_STEP_NOT_FOUND" "분석 단계를 찾을 수 없습니다." 400

unfoldable pub step_of : ℕ → String → Database → Option JobStep
step_of job_id step_key db =
    find? (λ step. step.job_id == job_id && step.step_key == step_key) db.job_steps

-- `_step_status(…) == "succeeded"`
abbrev pub has_succeeded : Option JobStep → Bool
has_succeeded none = false
has_succeeded (some step) = step_succeeded step.status

abbrev pub context_from :
    AnalysisJob → Option AnalysisRun → Option JobStep → Result DomainError StepAttemptContext
context_from job none step = error no_run
context_from job (some run) none = error no_step
context_from job (some run) (some step) = ok (record {
  job_id = job.id;
  step_id = step.id;
  step_key = step.step_key;
  run_id = run.id;
  expected_attempt = step.attempt_count;
})

-- `_context`
unfoldable pub context_of : AnalysisJob → String → Database → Result DomainError StepAttemptContext
unfolding latest_run step_of
context_of job step_key db = context_from job (latest_run job.id db) (step_of job.id step_key db)

-- How an analyzer ends: with metrics or an exception; its own sessions have committed the database.
abbrev pub Analyzer : Type 0
Analyzer = StepAttemptContext → Database → Result Outcome JsonDict × Database

abbrev pub analyzed_run : Result Outcome JsonDict × Database → HandlerRun
analyzed_run (ok metrics, after) = record {
  outcome = returned (done metrics);
  committed = after;
  working = after;
}
analyzed_run (error e, after) = record { outcome = e; committed = after; working = after }

-- The context is read and the session committed before the analyzer starts.
abbrev pub analyze_in : Analyzer → Database → Result DomainError StepAttemptContext → HandlerRun
analyze_in analyzer db (error e) = uncommitted (raised e) db db
analyze_in analyzer db (ok context) = analyzed_run (analyzer context db)

-- The two tests before the comments are analyzed.
abbrev pub guard_comments : (collected has_comments : Bool) → HandlerRun → Database → HandlerRun
guard_comments false has_comments run db =
    uncommitted (returned (skipped "COMMENT_COLLECTION_INCOMPLETE" none)) db db
guard_comments true false run db =
    uncommitted (returned (skipped "COMMENTS_UNAVAILABLE" none)) db db
guard_comments true true run db = run

abbrev pub metadata_run :
    AnalysisJob → Database → Result DomainError VideoMetadataSnapshot × Database → HandlerRun
unfolding quota_event
metadata_run job db (error e, after) = uncommitted (raised e) db after
metadata_run job db (ok snapshot, after) =
    uncommitted (returned (done (("video_count", int 1) ∷ []))) db
      (quota_event job "videos.list" "used" none after)

abbrev pub comments_run :
    AnalysisJob → Database → Result DomainError (List CommentSnapshot) × Database → HandlerRun
unfolding quota_event quota_status
comments_run job db (error e, after) =
    uncommitted
      (returned (
        if e.code == "COMMENTS_DISABLED"
        then skipped e.code (some e.message)
        else failed_result e.code e.message))
      db (quota_event job "commentThreads.list" (quota_status e.code) (some e.code) after)
comments_run job db (ok comments, after) =
    uncommitted (returned (done (("comments_collected", int (length comments)) ∷ []))) db
      (quota_event job "commentThreads.list" "used" none after)

abbrev pub transcript_run :
    Database
    → Result DomainError (TranscriptSnapshot × List TranscriptSegment) × Database
    → HandlerRun
transcript_run db (error e, after) =
    uncommitted
      (if e.code == "CAPTION_NOT_AVAILABLE"
        then returned (skipped e.code (some e.message))
        else raised e)
      db after
transcript_run db (ok (snapshot, segments), after) =
    uncommitted (returned (done (("segments_collected", int (length segments)) ∷ []))) db after

module _ (show_id : ℕ → String)
    (metadata_collector : AnalysisJob
      → Database
      → Result DomainError VideoMetadataSnapshot × Database)
    (comment_collector : AnalysisJob
      → Database
      → Result DomainError (List CommentSnapshot) × Database)
    (transcript_collector : AnalysisJob
      → Database
      → Result DomainError (TranscriptSnapshot × List TranscriptSegment) × Database)
    (comment_analyzer script_analyzer : Analyzer)
    (new_run : AnalysisJob → ℕ → ℕ → AnalysisRun) where
  unfoldable pub collect_metadata : StepHandler
  unfolding metadata_run
  collect_metadata job db = metadata_run job db (metadata_collector job db)

  unfoldable pub collect_comments : StepHandler
  unfolding comments_run
  collect_comments job db = comments_run job db (comment_collector job db)

  unfoldable pub collect_transcript : StepHandler
  collect_transcript job db = transcript_run db (transcript_collector job db)

  -- `new_run` makes the row of the configured values, for an id and a time.
  unfoldable pub create_analysis_run : StepHandler
  create_analysis_run job db =
      let run = new_run job db.next_id db.now in
      uncommitted (returned (done (("analysis_run_id", str (show_id run.id)) ∷ []))) db
        (record db { analysis_runs = db.analysis_runs ++ run ∷ []; next_id = suc db.next_id })

  unfoldable pub analyze_comments : StepHandler
  unfolding step_of context_of
  analyze_comments job db =
      guard_comments (has_succeeded (step_of job.id "collect_comments" db))
        (any (λ row. row.job_id == job.id) db.comment_snapshots)
        (analyze_in comment_analyzer db (context_of job "analyze_comments" db)) db

  unfoldable pub analyze_script : StepHandler
  unfolding step_of context_of
  analyze_script job db =
      if not (has_succeeded (step_of job.id "collect_transcript" db))
        || not (any (is_segment_of job.id db.transcript_snapshots) db.transcript_segments)
      then uncommitted (returned (skipped "CAPTION_NOT_AVAILABLE" none)) db db
      else analyze_in script_analyzer db (context_of job "analyze_script" db)

  unfoldable pub collection_analysis_handlers : Handlers
  unfolding collect_metadata collect_comments collect_transcript create_analysis_run
      analyze_comments analyze_script
  collection_analysis_handlers step_key =
      if step_key == "collect_metadata"
      then some collect_metadata
      else if step_key == "collect_comments"
      then some collect_comments
      else if step_key == "collect_transcript"
      then some collect_transcript
      else if step_key == "create_analysis_run"
      then some create_analysis_run
      else if step_key == "analyze_comments"
      then some analyze_comments
      else if step_key == "analyze_script"
      then some analyze_script
      else none
