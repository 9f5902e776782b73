-- ===== src/Reporting/Exports.antt =====
-- ExportService of app/reporting/exports.py. A renderer gives the bytes of a file, or `none` where it
-- raises; `sha256` is the hexadecimal digest. `started_at` is when the process began.
pub mod Delivery
use mathlib.Core.List.{head?}
use hate_speech_rag_service.Common.{
  ℕ, suc, String, Bool, true, false, not, ◌&&◌, ◌||◌, Option, none, some, List, [], ◌∷◌, ◌++◌, ◌==◌,
  nat_Eq, string_Eq, if◌then◌else◌, leb, filter, length, sort_desc,
}
use hate_speech_rag_service.Common.Errors.{DomainError, domain_error, Result, ok, error}
use hate_speech_rag_service.Db.JobRows.{JobStatus}
use hate_speech_rag_service.Db.Results.{ReportSnapshot, ReportExport}
use hate_speech_rag_service.Db.Database.{Database}

abbrev pub unsupported_format : DomainError
unsupported_format = domain_error "UNSUPPORTED_EXPORT_FORMAT" "지원하지 않는 export 형식입니다." 400

abbrev pub export_error : DomainError
export_error = record (domain_error "EXPORT_ERROR" "보고서 export 생성에 실패했습니다." 400) {
  retryable = true;
}

abbrev pub is_export_succeeded : JobStatus → Bool
is_export_succeeded JobStatus.succeeded = true
is_export_succeeded _ = false

abbrev pub new_export : ReportSnapshot → String → Database → ReportExport
new_export report format db = record {
  id = db.next_id;
  report_snapshot_id = report.id;
  format = format;
  status = JobStatus.running;
  file_blob = none;
  file_size_bytes = none;
  checksum = none;
  error_code = none;
  error_message = none;
  created_at = db.now;
  finished_at = none;
}

abbrev pub add_export : ReportExport → Database → Database
add_export e db = record db {
  report_exports = db.report_exports ++ e ∷ [];
  next_id = suc db.next_id;
}

module _ (html excel : ReportSnapshot → Database → Option (List ℕ)) (sha256 : List ℕ → String) where
  abbrev pub render : String → ReportSnapshot → Database → Option (List ℕ)
  render format report db = if format == "html" then html report db else excel report db

  -- The row once the renderer has ended.
  abbrev pub settle_export : Option (List ℕ) → ℕ → ReportExport → ReportExport
  settle_export (some content) now e = record e {
    status = JobStatus.succeeded;
    file_blob = some content;
    file_size_bytes = some (length content);
    checksum = some (sha256 content);
    finished_at = some now;
  }
  settle_export none now e = record e {
    status = JobStatus.failed;
    error_code = some "EXPORT_ERROR";
    error_message = some "보고서 export 생성에 실패했습니다.";
    finished_at = some now;
  }

  abbrev pub export_result : Option (List ℕ) → ReportExport → Result DomainError ReportExport
  export_result (some content) e = ok e
  export_result none e = error export_error

  -- The failed row is committed too, before the error is raised.
  unfoldable pub create :
      ReportSnapshot → String → Database → Result DomainError ReportExport × Database
  create report format db =
      let new = new_export report format db in
      let content = render format report (add_export new db) in
      let settled = settle_export content db.now new in
      if format == "html" || format == "xlsx"
      then (export_result content settled, add_export settled db)
      else (error unsupported_format, db)

  unfoldable pub latest_succeeded : ℕ → ReportSnapshot → String → Database → Option ReportExport
  latest_succeeded started_at report format db = head? (
      sort_desc (λ e. e.created_at)
        (filter
          (λ e.
            e.report_snapshot_id == report.id
            && e.format == format
            && is_export_succeeded e.status
            && leb started_at e.created_at)
          db.report_exports))
