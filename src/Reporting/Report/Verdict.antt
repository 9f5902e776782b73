-- ===== src/Reporting/Report/Verdict.antt =====
-- What ReportBuilder.build stores.
use hate_speech_rag_service.Common.{true, false, ◌&&◌, none, ◌==◌, nat_Eq, ◌≡◌, ◌↔◌, any}
use hate_speech_rag_service.Db.JobRows.{JobStatus, AnalysisJob, step_incomplete}
use hate_speech_rag_service.Db.Results.{AnalysisRun, ReportSnapshot}
use hate_speech_rag_service.Db.Database.{Database}

-- What a stored report says of its job's rows.
pub record IsReport (job : AnalysisJob) (run : AnalysisRun) (db : Database)
    (report : ReportSnapshot) : Type 0 where
  pub owner : report.owner_user_id ≡ job.user_id
  pub private : report.is_public_sample ≡ false
  pub partial :
      (report.status ≡ JobStatus.partial_success)
      ↔ (any (λ s. s.job_id == run.job_id && step_incomplete s.status) db.job_steps ≡ true)
  pub complete :
      (report.status ≡ JobStatus.succeeded)
      ↔ (any (λ s. s.job_id == run.job_id && step_incomplete s.status) db.job_steps ≡ false)
  pub explained : (report.failure_summary ≡ none) ↔ (report.status ≡ JobStatus.succeeded)
