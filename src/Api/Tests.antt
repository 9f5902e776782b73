-- ===== src/Api/Tests.antt =====
-- Small inputs of the routes, and the theorems at concrete inputs.
use hate_speech_rag_service.Common.{
  ℕ, Option, List, suc, String, true, false, none, some, [], ◌∷◌, ◌≡◌, refl, arith, length,
}
use hate_speech_rag_service.Db.JobRows.{JobStatus, StepStatus, JobStep, AnalysisJob}
use hate_speech_rag_service.Db.Results.{ReportSnapshot, ReportExport}
use hate_speech_rag_service.Db.Database.{Database, empty}
use hate_speech_rag_service.Jobs.Repository.{new_job, new_step}
use hate_speech_rag_service.Auth.Http.{AuthSettings, Request}
use hate_speech_rag_service.Api.Access.{report_of, export_of, authorized_report, download_export}
use hate_speech_rag_service.Api.Access.Private.{
  MayRead, authorized_report-MayRead, download_export-MayRead,
}
use hate_speech_rag_service.Api.Pages.{ResultFilter, collected_at, comment_rows, get_comments}
use hate_speech_rag_service.Api.Pages.Walks.{follow, follow-get_comments}

abbrev sample : ReportSnapshot
sample = record {
  id = 9;
  analysis_run_id = 20;
  owner_user_id = some 3;
  is_public_sample = true;
  status = JobStatus.succeeded;
  title = "보고서";
  payload = [];
  source_counts = [];
  failure_summary = none;
  created_at = 7;
}

abbrev rendered : ReportExport
rendered = record {
  id = 12;
  report_snapshot_id = 9;
  format = "html";
  status = JobStatus.succeeded;
  file_blob = some (60 ∷ []);
  file_size_bytes = some 1;
  checksum = none;
  error_code = none;
  error_message = none;
  created_at = 8;
  finished_at = some 8;
}

abbrev published : Database
published = record empty { report_snapshots = sample ∷ []; report_exports = rendered ∷ [] }

abbrev settings : AuthSettings
settings = record {
  session_cookie_name = "hsr_session";
  session_cookie_secure = true;
  session_cookie_domain = none;
  session_ttl_seconds = 60;
  frontend_origin = "http://localhost:3000";
}

abbrev anyone : Request
anyone = record { cookies = λ name. none; headers = λ name. none }

abbrev hash : String → String
hash token = token

authorized_report-MayRead_example :
    (report_of 9 published ≡ some sample) × MayRead hash settings true anyone [] published sample
unfolding authorized_report
authorized_report-MayRead_example =
    authorized_report-MayRead hash settings true anyone [] published 9
      (record { value = sample; response = []; database = published }) refl

download_export-MayRead_example :
    (e : ReportExport) × (export_of 12 published ≡ some e)
    × (e.file_blob ≡ some (60 ∷ []))
    × ((report : ReportSnapshot) × (report_of e.report_snapshot_id published ≡ some report)
        × MayRead hash settings true anyone [] published report)
unfolding download_export
download_export-MayRead_example =
    download_export-MayRead hash settings true anyone [] published 12
      (record { value = 60 ∷ []; response = []; database = published }) refl

abbrev no_filter : ResultFilter
no_filter = record {
  is_hate_speech = none;
  result_status = none;
  category = none;
  author_channel_id = none;
}

follow-get_comments_example :
    follow
      (suc (length (comment_rows sample no_filter collected_at published)))
      (λ cursor. get_comments sample 50 cursor no_filter collected_at published)
      0
    ≡ comment_rows sample no_filter collected_at published
follow-get_comments_example =
    follow-get_comments sample 50 no_filter collected_at published (omega arith)

abbrev job : AnalysisJob
job = new_job "dQw4w9WgXcQ" "dQw4w9WgXcQ" none [] empty

abbrev counting : JobStep
counting = record (new_step 3 1 "analyze_comments" false) {
  status = StepStatus.running;
  items_total = some 8;
  items_completed = 3;
}

abbrev one_byte : ReportSnapshot → Database → Option (List ℕ)
one_byte r db = some (60 ∷ [])

abbrev digest : List ℕ → String
digest content = "00"
