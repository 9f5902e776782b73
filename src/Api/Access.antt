-- ===== src/Api/Access.antt =====
-- Who may see what: `_authorize_job` of app/api/jobs.py, `_authorized_report` and `create_export` of
-- app/api/reports.py, `_authorize_export` and the download of app/api/exports.py.
pub mod Private
use hate_speech_rag_service.Common.{
  ℕ, String, Bool, true, false, not, ◌&&◌, ◌||◌, Option, none, some, List, [], ◌∷◌, ◌==◌, nat_Eq,
  option_eq, if◌then◌else◌, find?,
}
use hate_speech_rag_service.Common.Errors.{DomainError, domain_error, Result, ok, error}
use hate_speech_rag_service.Db.Accounts.{User}
use hate_speech_rag_service.Db.JobRows.{AnalysisJob, JobStatus}
use hate_speech_rag_service.Db.Results.{ReportSnapshot, ReportExport}
use hate_speech_rag_service.Db.Database.{Database}
use hate_speech_rag_service.Auth.Http.{
  AuthSettings, Request, Cookie, Authenticated, required, require_csrf,
}

abbrev pub job_forbidden : DomainError
job_forbidden = domain_error "JOB_FORBIDDEN" "이 분석 job을 조회할 권한이 없습니다." 403

abbrev pub report_not_found : DomainError
report_not_found = domain_error "REPORT_NOT_FOUND" "보고서를 찾을 수 없습니다." 404

abbrev pub report_forbidden : DomainError
report_forbidden = domain_error "REPORT_FORBIDDEN" "이 보고서를 조회할 권한이 없습니다." 403

abbrev pub export_forbidden : DomainError
export_forbidden = domain_error "REPORT_FORBIDDEN" "이 보고서의 export를 생성할 권한이 없습니다." 403

abbrev pub export_not_found : DomainError
export_not_found = domain_error "EXPORT_NOT_FOUND" "Export 작업을 찾을 수 없습니다." 404

abbrev pub export_not_ready : DomainError
export_not_ready = domain_error "EXPORT_NOT_READY" "Export 파일이 준비되지 않았습니다." 409

-- What a route goes on with: a value, the cookies of the response and the database.
pub record Granted {ℓ} (A : Type ℓ) : Type ℓ where
  pub value : A
  pub response : List Cookie
  pub database : Database

unfoldable pub report_of : ℕ → Database → Option ReportSnapshot
report_of report_id db = find? (λ report. report.id == report_id) db.report_snapshots

unfoldable pub export_of : ℕ → Database → Option ReportExport
export_of export_id db = find? (λ e. e.id == export_id) db.report_exports

module _ (token_hash : String → String) (settings : AuthSettings) (auth_configured : Bool)
    (request : Request) where
  -- The login, and the test whether its user is the owner.
  abbrev pub check_owner {ℓ} :
      {A : Type ℓ}
      → Option ℕ
      → DomainError
      → A
      → Result DomainError (Authenticated User)
      → Result DomainError (Granted A)
  check_owner owner forbidden value (error e) = error e
  check_owner owner forbidden value (ok a) =
      if option_eq owner (some a.user.id)
      then ok (record { value = value; response = a.response; database = a.database })
      else error forbidden

  unfoldable pub require_owner {ℓ} :
      {A : Type ℓ}
      → Option ℕ
      → DomainError
      → A
      → List Cookie
      → Database
      → Result DomainError (Granted A)
  unfolding required
  require_owner owner forbidden value response db =
      check_owner owner forbidden value (required token_hash settings request response db)

  abbrev pub free {ℓ} : {A : Type ℓ} → A → List Cookie → Database → Result DomainError (Granted A)
  free value response db = ok (record { value = value; response = response; database = db })

  unfoldable pub authorize_job :
      AnalysisJob → List Cookie → Database → Result DomainError (Granted AnalysisJob)
  unfolding require_owner
  authorize_job job response db =
      if not auth_configured
      then free job response db
      else require_owner job.user_id job_forbidden job response db

  -- The rule for a report that is there.
  unfoldable pub authorize_report {ℓ} :
      {A : Type ℓ} → ReportSnapshot → A → List Cookie → Database → Result DomainError (Granted A)
  unfolding require_owner
  authorize_report report value response db =
      if not auth_configured || report.is_public_sample
      then free value response db
      else require_owner report.owner_user_id report_forbidden value response db

  unfoldable pub authorized_report :
      ℕ → List Cookie → Database → Result DomainError (Granted ReportSnapshot)
  unfolding report_of authorize_report
  authorized_report report_id response db = elim (report_of report_id db) [
    | none ↦ error report_not_found
    | some report ↦ authorize_report report report response db
  ]

  unfoldable pub authorize_export :
      ReportExport → List Cookie → Database → Result DomainError (Granted ReportExport)
  unfolding report_of authorize_report
  authorize_export e response db = elim (report_of e.report_snapshot_id db) [
    | none ↦ error report_not_found
    | some report ↦ authorize_report report e response db
  ]

  -- The file of an export that may be read.
  abbrev pub file_of :
      Result DomainError (Granted ReportExport) → Result DomainError (Granted (List ℕ))
  file_of (error e) = error e
  file_of (ok granted) = file_when granted granted.value.status granted.value.file_blob
    where
      file_when :
          Granted ReportExport → JobStatus → Option (List ℕ) → Result DomainError (Granted (List ℕ))
      file_when g JobStatus.succeeded (some (b ∷ bytes)) =
          ok (record { value = b ∷ bytes; response = g.response; database = g.database })
      file_when g _ _ = error export_not_ready

  unfoldable pub download_export :
      ℕ → List Cookie → Database → Result DomainError (Granted (List ℕ))
  unfolding export_of authorize_export
  download_export export_id response db = elim (export_of export_id db) [
    | none ↦ error export_not_found
    | some e ↦ file_of (authorize_export e response db)
  ]

  -- The checks of `create_export`, before an export is looked up or made.
  unfoldable pub may_export :
      ℕ → List Cookie → Database → Result DomainError (Granted ReportSnapshot)
  unfolding report_of require_owner require_csrf
  may_export report_id response db =
      let found : Result DomainError (Granted ReportSnapshot) = elim (report_of report_id db) [
        | none ↦ error report_not_found
        | some report ↦
            if auth_configured && not report.is_public_sample
            then require_owner report.owner_user_id export_forbidden report response db
            else free report response db
      ] in
      if auth_configured
      then elim (require_csrf request settings) [ error e ↦ error e | ok _ ↦ found ]
      else found
