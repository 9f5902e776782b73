-- ===== src/Api/Admin.antt =====
-- The routes of app/api/admin.py, once the dependency `require_admin` has passed.
use hate_speech_rag_service.Common.{
  ℕ, String, Bool, true, false, not, ◌&&◌, ◌||◌, Option, none, some, List, [], ◌∷◌, ◌==◌, nat_Eq,
  string_Eq, if◌then◌else◌, filter, any, map, take, update_where, option_eq, sort_desc,
}
use hate_speech_rag_service.Common.Errors.{DomainError, domain_error, Result, ok, error}
use hate_speech_rag_service.Db.JobRows.{
  JobStatus, StepStatus, AnalysisJob, JobStep, OperationLog, ApiQuotaEvent, step_failed,
}
use hate_speech_rag_service.Db.Database.{Database}
use hate_speech_rag_service.Jobs.Repository.{get, list_steps, update_job}
use hate_speech_rag_service.Api.Access.{report_of, report_not_found}
use hate_speech_rag_service.Api.Pages.{Page, page_of, fits_job}

abbrev pub admin_unauthorized : DomainError
admin_unauthorized = domain_error "ADMIN_UNAUTHORIZED" "관리자 인증이 필요합니다." 401

abbrev pub job_not_found : DomainError
job_not_found = domain_error "JOB_NOT_FOUND" "분석 job을 찾을 수 없습니다." 404

abbrev pub job_not_retryable : DomainError
job_not_retryable = domain_error "JOB_NOT_RETRYABLE" "재시도 가능한 실패 단계가 없습니다." 409

-- `hmac.compare_digest` tells whether the texts are equal; an empty token is refused.
unfoldable pub require_admin : String → Option String → Result DomainError (Unit {0})
require_admin admin_token none = error admin_unauthorized
require_admin admin_token (some token) =
    if token == "" || not (token == admin_token) then error admin_unauthorized else ok tt

-- `if youtube_video_id: …`
abbrev pub fits_video : Option String → AnalysisJob → Bool
fits_video none job = true
fits_video (some wanted) job = wanted == "" || job.youtube_video_id == wanted

-- Jobs of the same time keep their order, which the database leaves open.
unfoldable pub list_jobs : Option String → Option String → ℕ → ℕ → Database → Page AnalysisJob
unfolding page_of
list_jobs job_status youtube_video_id limit cursor db = page_of cursor limit (
    sort_desc (λ job. job.created_at)
      (filter (λ job. fits_job job_status job && fits_video youtube_video_id job) db.analysis_jobs))

-- `RETRYABLE_CODES`
abbrev pub retryable_codes : List String
retryable_codes =
    "YOUTUBE_QUOTA_EXCEEDED" ∷ "YOUTUBE_RATE_LIMITED" ∷ "YOUTUBE_API_ERROR"
    ∷ "COMMENT_COLLECTION_INCOMPLETE" ∷ "CAPTION_COLLECTION_ERROR"
    ∷ "EXAMPLE_VECTOR_STORE_UNAVAILABLE" ∷ "DEFINITION_VECTOR_STORE_UNAVAILABLE"
    ∷ "LLM_RATE_LIMITED" ∷ "LLM_TIMEOUT" ∷ "LLM_ERROR" ∷ "NETWORK_BUILD_ERROR"
    ∷ "REPORT_BUILD_ERROR" ∷ "EXPORT_ERROR" ∷ "UNEXPECTED_ERROR" ∷ []

abbrev pub is_retryable_code : Option String → Bool
is_retryable_code none = false
is_retryable_code (some code) = any (λ c. c == code) retryable_codes

abbrev pub is_retryable : JobStep → Bool
is_retryable step = step_failed step.status && is_retryable_code step.error_code

pub record FailedStep : Type 0 where
  pub step_key : String
  pub error_code : Option String
  pub retryable : Bool

pub record JobDetail : Type 0 where
  pub job : AnalysisJob
  pub retryable : Bool
  pub failed_steps : List FailedStep

abbrev pub failed_step : JobStep → FailedStep
failed_step step = record {
  step_key = step.step_key;
  error_code = step.error_code;
  retryable = is_retryable_code step.error_code;
}

unfoldable pub get_job : ℕ → Database → Result DomainError JobDetail
unfolding get list_steps
get_job job_id db = elim (get job_id db) [
  | none ↦ error job_not_found
  | some job ↦
      let failed =
        map failed_step (filter (λ step. step_failed step.status) (list_steps job.id db)) in
      ok (record { job = job; retryable = any (λ f. f.retryable) failed; failed_steps = failed })
]

-- `steps[failed_index:]`, where there is a failed step that may be retried.
unfoldable pub from_failed : List JobStep → List JobStep
from_failed [] = []
from_failed (step ∷ steps) =
    let later = from_failed steps in if is_retryable step then step ∷ steps else later

abbrev pub retried_step : JobStep → JobStep
retried_step step = record step {
  status = StepStatus.pending;
  error_code = none;
  error_message = none;
  started_at = none;
  finished_at = none;
}

abbrev pub retried_job : AnalysisJob → AnalysisJob
retried_job job = record job {
  status = JobStatus.pending;
  error_summary = none;
  finished_at = none;
}

-- The writes of a retry, for the steps to be run again.
unfoldable pub retry_steps : ℕ → List JobStep → Database → Result DomainError Database
retry_steps job_id [] db = error job_not_retryable
retry_steps job_id (step ∷ steps) db = ok (
    update_job job_id retried_job (record db {
      job_steps =
          update_where (λ row. any (λ s. s.id == row.id) (step ∷ steps)) retried_step db.job_steps;
    }))

unfoldable pub retry_job : ℕ → Database → Result DomainError Database
unfolding get list_steps from_failed retry_steps
retry_job job_id db = elim (get job_id db) [
  | none ↦ error job_not_found
  | some job ↦ retry_steps job.id (from_failed (list_steps job.id db)) db
]

-- `publish_sample` with true, `unpublish_sample` with false.
unfoldable pub set_public_sample : Bool → ℕ → Database → Result DomainError Database
unfolding report_of
set_public_sample is_public report_id db = elim (report_of report_id db) [
  | none ↦ error report_not_found
  | some report ↦ ok (record db {
    report_snapshots =
        update_where (λ row. row.id == report.id)
          (λ row. record row { is_public_sample = is_public }) db.report_snapshots;
  })
]

abbrev pub fits_text : Option String → String → Bool
fits_text none text = true
fits_text (some wanted) text = wanted == "" || text == wanted

abbrev pub fits_id : Option ℕ → Option ℕ → Bool
fits_id none id = true
fits_id (some wanted) id = option_eq id (some wanted)

unfoldable pub get_logs :
    Option ℕ → Option String → Option String → ℕ → Database → List OperationLog
get_logs job_id level event_type limit db = take limit (
    sort_desc (λ row. row.created_at)
      (filter
        (λ row.
          fits_id job_id row.job_id
          && fits_text level row.level
          && fits_text event_type row.event_type)
        db.operation_logs))

unfoldable pub get_quota_events : ℕ → Database → List ApiQuotaEvent
get_quota_events limit db = take limit (sort_desc (λ row. row.created_at) db.api_quota_events)
