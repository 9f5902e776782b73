-- ===== src/Api/Exports.antt =====
-- The routes that make and show an export: `create_export` of app/api/reports.py and `get_export` of
-- app/api/exports.py. `show_id` writes an id as text.
pub mod Roundtrip
use Prim.Native.String
use hate_speech_rag_service.Common.{
  ℕ, String, Bool, true, false, Option, none, some, List, [], ◌∷◌, if◌then◌else◌, or_else,
}
use hate_speech_rag_service.Common.Errors.{DomainError, Result, ok, error}
use hate_speech_rag_service.Db.JobRows.{JobStatus}
use hate_speech_rag_service.Db.Results.{ReportSnapshot, ReportExport}
use hate_speech_rag_service.Db.Database.{Database}
use hate_speech_rag_service.Auth.Http.{AuthSettings, Request, Cookie}
use hate_speech_rag_service.Reporting.Exports.{create, latest_succeeded, is_export_succeeded}
use hate_speech_rag_service.Api.Access.{
  Granted, may_export, export_of, authorize_export, export_not_found,
}

pub record ExportPayload : Type 0 where
  pub export_id : ℕ
  pub report_id : ℕ
  pub format : String
  pub status : JobStatus
  pub file_size_bytes : Option ℕ
  pub download_url : Option String
  pub created_at : ℕ
  pub finished_at : Option ℕ

abbrev pub export_payload : (ℕ → String) → ReportExport → ExportPayload
export_payload show_id e = record {
  export_id = e.id;
  report_id = e.report_snapshot_id;
  format = e.format;
  status = e.status;
  file_size_bytes = e.file_size_bytes;
  download_url =
      if is_export_succeeded e.status
      then some (String.◌++◌ "/api/exports/" (String.◌++◌ (show_id e.id) "/download"))
      else none;
  created_at = e.created_at;
  finished_at = e.finished_at;
}

module _ (html excel : ReportSnapshot → Database → Option (List ℕ)) (sha256 : List ℕ → String)
    (started_at : ℕ) where
  -- A public sample's last file of this process is given again.
  unfoldable pub reuse_or_create :
      ReportSnapshot → String → Database → Result DomainError ReportExport × Database
  unfolding create latest_succeeded
  reuse_or_create report format db =
      elim (if report.is_public_sample
        then latest_succeeded html excel sha256 started_at report format db
        else none) [ some e ↦ (ok e, db) | none ↦ create html excel sha256 report format db ]

  module _ (token_hash : String → String) (settings : AuthSettings) (auth_configured : Bool)
      (request : Request) where
    -- What an error leaves in the database is what `create` has committed.
    unfoldable pub create_export :
        ℕ → String → List Cookie → Database → Result DomainError ReportExport × Database
    unfolding may_export reuse_or_create
    create_export report_id format response db =
        elim (may_export token_hash settings auth_configured request report_id response db) [
          | error e ↦ (error e, db)
          | ok granted ↦ reuse_or_create granted.value format granted.database
        ]

module _ (show_id : ℕ → String) (token_hash : String → String) (settings : AuthSettings)
    (auth_configured : Bool) (request : Request) where
  unfoldable pub get_export :
      ℕ → List Cookie → Database → Result DomainError (Granted ExportPayload)
  unfolding export_of authorize_export
  get_export export_id response db = elim (export_of export_id db) [
    | none ↦ error export_not_found
    | some e ↦ elim (authorize_export token_hash settings auth_configured request e response db) [
      | error err ↦ error err
      | ok granted ↦ ok (record {
        value = export_payload show_id e;
        response = granted.response;
        database = granted.database;
      })
    ]
  ]
