-- ===== src/Reporting/Report.antt =====
-- ReportBuilder.build of app/reporting/builder.py: the payload and the row of a report. `iso` is
-- `datetime.isoformat`.
pub mod Verdict
use Prim.Native.String
use hate_speech_rag_service.Common.{
  ℕ, suc, String, Bool, true, false, not, ◌&&◌, Option, none, some, List, [], ◌∷◌, ◌++◌, ◌==◌,
  nat_Eq, if◌then◌else◌, filter, find?, map, count, length, is_some, any,
}
use hate_speech_rag_service.Common.Json.{
  Json, Fields, Items, JsonDict, null, bool, int, str, arr, obj, nil, cons, end, field,
}
use hate_speech_rag_service.Common.Errors.{DomainError, domain_error, Result, ok, error}
use hate_speech_rag_service.Db.JobRows.{
  JobStatus, StepStatus, JobStep, AnalysisJob, step_incomplete,
}
use hate_speech_rag_service.Db.Content.{VideoMetadataSnapshot, CommentSnapshot, TranscriptSegment}
use hate_speech_rag_service.Db.Results.{AnalysisRun, AnalysisResult, CommentNetwork, ReportSnapshot}
use hate_speech_rag_service.Db.Database.{Database}
use hate_speech_rag_service.Jobs.Repository.{get}
use hate_speech_rag_service.Analysis.ResultStore.{is_segment_of, text_or}
use hate_speech_rag_service.Reporting.Network.{network_rows}
use hate_speech_rag_service.Reporting.Builder.{
  AnalysisSummary, analysis_summary, Row, representative_comments,
}

unfoldable pub fields : JsonDict → Fields
fields [] = end
fields ((key, value) ∷ rest) = field key value (fields rest)

unfoldable pub items : List Json → Items
items [] = nil
items (value ∷ rest) = cons value (items rest)

abbrev pub dict : JsonDict → Json
unfolding fields
dict entries = obj (fields entries)

abbrev pub list : List Json → Json
unfolding items
list values = arr (items values)

abbrev pub text_json : Option String → Json
text_json none = null
text_json (some s) = str s

abbrev pub int_json : Option ℕ → Json
int_json none = null
int_json (some n) = int n

abbrev pub texts_json : Option (List String) → Json
texts_json none = null
texts_json (some xs) = list (map str xs)

abbrev pub step_status_name : StepStatus → String
step_status_name StepStatus.pending = "pending"
step_status_name StepStatus.running = "running"
step_status_name StepStatus.succeeded = "succeeded"
step_status_name StepStatus.failed = "failed"
step_status_name StepStatus.skipped = "skipped"

abbrev pub summary_json : AnalysisSummary → Json
summary_json s = dict (
    ("total", int s.total)
    ∷ ("succeeded", int s.succeeded)
    ∷ ("failed", int s.failed)
    ∷ ("missing", int s.missing)
    ∷ ("hate_speech_count", int s.hate_speech_count)
    ∷ ("category_distribution", dict (map (λ (key, n). (key, int n)) s.category_distribution))
    ∷ [])

abbrev pub representative_json : Row → Json
representative_json (comment, result) = dict (
    ("youtube_comment_id", str comment.youtube_comment_id)
    ∷ ("text", text_json comment.text_original)
    ∷ ("like_count", int_json comment.like_count)
    ∷ ("categories", elim result [ none ↦ null | some r ↦ texts_json r.values.categories ])
    ∷ ("reasoning", elim result [ none ↦ null | some r ↦ text_json r.values.reasoning ])
    ∷ [])

abbrev pub failure_json : JobStep → Json
failure_json step = dict (
    ("step_key", str step.step_key)
    ∷ ("status", str (step_status_name step.status))
    ∷ ("error_code", text_json step.error_code)
    ∷ ("message", text_json step.error_message)
    ∷ [])

-- The segments of the job's transcripts, with their results in the run.
unfoldable pub script_rows :
    AnalysisRun → Database → List (TranscriptSegment × Option AnalysisResult)
script_rows run db =
    map
      (λ segment. (
        segment,
        find? (λ result. result.source_id == segment.id && result.analysis_run_id == run.id)
            db.script_analysis_results,
      ))
      (filter (is_segment_of run.job_id db.transcript_snapshots) db.transcript_segments)

-- The steps that the report lists as failures.
unfoldable pub failed_steps : AnalysisRun → Database → List JobStep
failed_steps run db =
    filter (λ step. step_incomplete step.status)
      (filter (λ step. step.job_id == run.job_id) db.job_steps)

abbrev pub network_summary : Option CommentNetwork → Json
network_summary none =
    dict (("status", str "skipped") ∷ ("node_count", int 0) ∷ ("edge_count", int 0) ∷ [])
network_summary (some network) = dict network.summary

abbrev pub video_json : (ℕ → String) → VideoMetadataSnapshot → Json
video_json iso m = dict (
    ("title", text_json m.title)
    ∷ ("channel_title", text_json m.channel_title)
    ∷ ("published_at", elim m.published_at [ none ↦ null | some at ↦ str (iso at) ])
    ∷ ("view_count", int_json m.view_count)
    ∷ ("comment_count", int_json m.comment_count)
    ∷ ("thumbnail_url", text_json m.thumbnail_url)
    ∷ [])

abbrev pub config_json : AnalysisRun → Json
config_json run = dict (
    ("llm_provider", str run.llm_provider)
    ∷ ("llm_model", str run.llm_model)
    ∷ ("embedding_provider", str run.embedding_provider)
    ∷ ("embedding_model", str run.embedding_model)
    ∷ ("example_collection", str run.example_vector_collection)
    ∷ ("definition_collection", str run.definition_vector_collection)
    ∷ ("definition_corpus_version", text_json run.definition_corpus_version)
    ∷ ("retriever_config", dict run.retriever_config)
    ∷ ("prompt_versions", dict run.prompt_versions)
    ∷ [])

abbrev pub is_any {ℓ} : {A : Type ℓ} → List A → Bool
is_any [] = false
is_any (_ ∷ _) = true

unfoldable pub payload : (ℕ → String) → AnalysisRun → VideoMetadataSnapshot → Database → JsonDict
unfolding analysis_summary representative_comments network_rows script_rows failed_steps
payload iso run metadata db =
    let comments = network_rows run db in
    let scripts = script_rows run db in
    ("youtube_video_id", str run.youtube_video_id)
    ∷ ("video", video_json iso metadata)
    ∷ (
      "collection_summary",
      dict (
          ("comments_collected", int (count (λ row. not row.0.is_reply) comments))
          ∷ ("replies_collected", int (count (λ row. row.0.is_reply) comments))
          ∷ ("transcript_available", bool (is_any scripts))
          ∷ []),
    )
    ∷ ("comment_analysis_summary", summary_json (analysis_summary (map (λ row. row.1) comments)))
    ∷ ("script_analysis_summary", summary_json (analysis_summary (map (λ row. row.1) scripts)))
    ∷ (
      "network_summary",
      network_summary (find? (λ network. network.analysis_run_id == run.id) db.comment_networks),
    )
    ∷ (
      "representative_comments",
      list (map representative_json (representative_comments comments 10)),
    )
    ∷ ("failure_summary", list (map failure_json (failed_steps run db)))
    ∷ ("analysis_config", config_json run)
    ∷ []

unfoldable pub new_report :
    (ℕ → String) → AnalysisJob → AnalysisRun → VideoMetadataSnapshot → Database → ReportSnapshot
unfolding payload failed_steps
new_report iso job run metadata db =
    let failures = failed_steps run db in
    record {
      id = db.next_id;
      analysis_run_id = run.id;
      owner_user_id = job.user_id;
      is_public_sample = false;
      status = if is_any failures then JobStatus.partial_success else JobStatus.succeeded;
      title = String.◌++◌ (text_or metadata.title run.youtube_video_id) " 혐오표현 분석 보고서";
      payload = payload iso run metadata db;
      source_counts =
          ("comments", int (length (network_rows run db)))
          ∷ ("script_segments", int (length (script_rows run db)))
          ∷ [];
      failure_summary =
          if is_any failures
          then some (dict (("items", list (map failure_json failures)) ∷ []))
          else none;
      created_at = db.now;
    }

abbrev pub no_job : DomainError
no_job = domain_error "REPORT_BUILD_ERROR" "분석 job이 없어 보고서를 생성할 수 없습니다." 400

abbrev pub no_metadata : DomainError
no_metadata = domain_error "REPORT_BUILD_ERROR" "영상 metadata가 없어 보고서를 생성할 수 없습니다." 400

unfoldable pub build_snapshot :
    (ℕ → String) → AnalysisRun → Database → Result DomainError (ReportSnapshot × Database)
unfolding new_report get
build_snapshot iso run db = elim (get run.job_id db) [
  | none ↦ error no_job
  | some job ↦ elim (find? (λ m. m.job_id == run.job_id) db.video_metadata_snapshots) [
    | none ↦ error no_metadata
    | some metadata ↦
        let report = new_report iso job run metadata db in
        ok (
          report,
          record db {
            report_snapshots = db.report_snapshots ++ report ∷ [];
            next_id = suc db.next_id;
          },
        )
  ]
]
