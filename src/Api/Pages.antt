-- ===== src/Api/Pages.antt =====
-- The lists of app/api/reports.py and app/api/me.py: filters, orders and pages.
pub mod Walks
use hate_speech_rag_service.Common.{
  sort_desc, ℕ, zero, suc, ◌+◌, String, Bool, true, false, ◌&&◌, ◌||◌, Option, none, some, List, [],
  ◌∷◌, ◌++◌, ◌==◌, nat_Eq, string_Eq, option_eq, if◌then◌else◌, leb, ltb, filter, any, map, take,
  length, sort_by, is_none, is_some,
}
use hate_speech_rag_service.Db.JobRows.{JobStatus, AnalysisJob}
use hate_speech_rag_service.Db.Content.{CommentSnapshot, TranscriptSegment}
use hate_speech_rag_service.Db.Results.{AnalysisResult, ResultStatus, is_succeeded, ReportSnapshot}
use hate_speech_rag_service.Db.Database.{Database}

pub record Page {ℓ} (A : Type ℓ) : Type ℓ where
  pub items : List A
  pub total : ℕ
  pub next_cursor : Option ℕ
  pub has_more : Bool

module _ {ℓ} {A : Type ℓ} where
  abbrev pub drop : ℕ → List A → List A
  drop zero xs = xs
  drop (suc n) [] = []
  drop (suc n) (x ∷ xs) = drop n xs

  -- `rows[cursor : cursor + limit]`
  abbrev pub slice : ℕ → ℕ → List A → List A
  slice cursor limit rows = take limit (drop cursor rows)

  -- `_page`, of the rows that the slice has taken.
  unfoldable pub page : List A → ℕ → ℕ → ℕ → Page A
  page items cursor limit total =
      let next_cursor = if ltb (cursor + limit) total then some (cursor + limit) else none in
      record {
        items = items;
        total = total;
        next_cursor = next_cursor;
        has_more = is_some next_cursor;
      }

  unfoldable pub page_of : ℕ → ℕ → List A → Page A
  unfolding page
  page_of cursor limit rows = page (slice cursor limit rows) cursor limit (length rows)

-- `coalesce(value, 0)`
abbrev pub or_zero : Option ℕ → ℕ
or_zero none = 0
or_zero (some n) = n

-- The query parameters that narrow a list of results.
pub record ResultFilter : Type 0 where
  pub is_hate_speech : Option Bool
  pub result_status : Option String
  pub category : Option String
  pub author_channel_id : Option String

pub data Sort : Type 0 where
  collected_at like_count : Sort

abbrev pub same_bool : Bool → Bool → Bool
same_bool true b = b
same_bool false true = false
same_bool false false = true

-- `wanted is None or value == wanted`
abbrev pub fits_bool : Option Bool → Option Bool → Bool
fits_bool none value = true
fits_bool (some wanted) none = false
fits_bool (some wanted) (some b) = same_bool b wanted

abbrev pub fits_text : Option String → Option String → Bool
fits_text wanted value = is_none wanted || option_eq value wanted

abbrev pub status_text : ResultStatus → String
status_text ResultStatus.succeeded = "succeeded"
status_text ResultStatus.failed = "failed"

abbrev pub fits_category : Option String → Option (List String) → Bool
fits_category none categories = true
fits_category (some wanted) none = false
fits_category (some wanted) (some categories) = any (λ c. c == wanted) categories

-- What comments and segments are both filtered by.
abbrev pub fits_result : ResultFilter → AnalysisResult → Bool
fits_result f result =
    fits_bool f.is_hate_speech result.values.is_hate_speech
    && (is_none f.result_status || option_eq (some (status_text result.status)) f.result_status)

unfoldable pub fits_comment : ResultFilter → CommentSnapshot × AnalysisResult → Bool
fits_comment f (comment, result) =
    fits_result f result
    && fits_category f.category result.values.categories
    && fits_text f.author_channel_id comment.author_channel_id

module _ {A : Type 0} (id_of : A → ℕ) (run_id : ℕ) where
  abbrev pub is_of : A → AnalysisResult → Bool
  is_of x r = r.source_id == id_of x && r.analysis_run_id == run_id

  -- The inner join of items with their results in a run.
  abbrev pub join_results : List AnalysisResult → List A → List (A × AnalysisResult)
  join_results results [] = []
  join_results results (x ∷ xs) =
      map (λ r. (x, r)) (filter (is_of x) results) ++ join_results results xs

-- The orders of `get_comments`: a stable sort by the last key comes first.
unfoldable pub order_comments :
    Sort → List (CommentSnapshot × AnalysisResult) → List (CommentSnapshot × AnalysisResult)
order_comments collected_at rows =
    sort_by (λ row. row.0.collected_at) (sort_by (λ row. row.0.id) rows)
order_comments like_count rows =
    sort_desc (λ row. or_zero row.0.like_count)
      (sort_desc (λ row. row.0.collected_at) (sort_by (λ row. row.0.id) rows))

unfoldable pub comment_rows :
    ReportSnapshot → ResultFilter → Sort → Database → List (CommentSnapshot × AnalysisResult)
unfolding order_comments fits_comment
comment_rows report f sort db = filter (fits_comment f) (
    order_comments sort (
      join_results (λ comment. comment.id) report.analysis_run_id db.comment_analysis_results
        db.comment_snapshots))

-- `get_comments`, for a report that may be read.
unfoldable pub get_comments :
    ReportSnapshot
    → ℕ
    → ℕ
    → ResultFilter
    → Sort
    → Database
    → Page (CommentSnapshot × AnalysisResult)
unfolding comment_rows page_of
get_comments report limit cursor f sort db = page_of cursor limit (comment_rows report f sort db)

unfoldable pub segment_rows :
    ReportSnapshot → ResultFilter → Database → List (TranscriptSegment × AnalysisResult)
segment_rows report f db =
    filter (λ row. fits_result f row.1)
      (sort_by (λ row. row.0.segment_index)
        (join_results (λ segment. segment.id) report.analysis_run_id db.script_analysis_results
          db.transcript_segments))

unfoldable pub get_script_segments :
    ReportSnapshot → ℕ → ℕ → ResultFilter → Database → Page (TranscriptSegment × AnalysisResult)
unfolding segment_rows page_of
get_script_segments report limit cursor f db = page_of cursor limit (segment_rows report f db)

-- `order_by(created_at.desc(), id)`
abbrev pub newest_reports : List ReportSnapshot → List ReportSnapshot
newest_reports rows = sort_desc (λ report. report.created_at) (sort_by (λ report. report.id) rows)

unfoldable pub get_public_reports : ℕ → ℕ → Database → Page ReportSnapshot
unfolding page_of
get_public_reports limit cursor db =
    page_of cursor limit
      (newest_reports (filter (λ report. report.is_public_sample) db.report_snapshots))

-- `list_reports`, once the user is known.
unfoldable pub list_reports : ℕ → ℕ → ℕ → Database → Page ReportSnapshot
unfolding page_of
list_reports user_id limit cursor db = page_of cursor limit (
    newest_reports
      (filter (λ report. option_eq report.owner_user_id (some user_id)) db.report_snapshots))

abbrev pub job_status_text : JobStatus → String
job_status_text JobStatus.pending = "pending"
job_status_text JobStatus.running = "running"
job_status_text JobStatus.succeeded = "succeeded"
job_status_text JobStatus.partial_success = "partial_success"
job_status_text JobStatus.failed = "failed"

-- `if job_status: … where(status == job_status)`
abbrev pub fits_job : Option String → AnalysisJob → Bool
fits_job none job = true
fits_job (some wanted) job = wanted == "" || job_status_text job.status == wanted

-- The rows of `list_jobs`, once the user is known.
unfoldable pub list_jobs : ℕ → Option String → ℕ → ℕ → Database → Page AnalysisJob
unfolding page_of
list_jobs user_id job_status limit cursor db = page_of cursor limit (
    sort_desc (λ job. job.created_at)
      (sort_by (λ job. job.id)
        (filter (λ job. option_eq job.user_id (some user_id) && fits_job job_status job)
          db.analysis_jobs)))
