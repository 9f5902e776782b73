-- ===== src/Api/Access/Private.antt =====
-- That nothing private leaves to anyone but its owner.
use hate_speech_rag_service.Common.{
  ℕ, String, Bool, true, false, not, ◌||◌, Option, none, some, List, ◌≡◌, ◌⊎◌, inl, inr, refl, sym,
  subst, ap, arith, option_eq, option_eq_iff, nat_Eq, Bool-cases,
}
use hate_speech_rag_service.Common.Errors.{DomainError, Result, ok, error}
use hate_speech_rag_service.Db.Accounts.{User}
use hate_speech_rag_service.Db.JobRows.{AnalysisJob}
use hate_speech_rag_service.Db.Results.{ReportSnapshot, ReportExport}
use hate_speech_rag_service.Db.Database.{Database}
use hate_speech_rag_service.Auth.Http.{AuthSettings, Request, Cookie, Authenticated, required}
use hate_speech_rag_service.Api.Access.{
  Granted, report_of, export_of, check_owner, require_owner, authorize_job, authorize_report,
  authorized_report, authorize_export, file_of, download_export, report_forbidden, job_forbidden,
  report_not_found, export_not_found,
}

module _ (token_hash : String → String) (settings : AuthSettings) (auth_configured : Bool)
    (request : Request) (response : List Cookie) (db : Database) where
  -- The request's session logs in the owner.
  abbrev pub IsOwner : Option ℕ → Type 0
  IsOwner owner =
      (a : Authenticated User) × (required token_hash settings request response db ≡ ok a)
      × (owner ≡ some a.user.id)

  -- Who may read a report or its exports.
  abbrev pub MayRead : ReportSnapshot → Type 0
  MayRead report =
      (auth_configured ≡ false) ⊎ ((report.is_public_sample ≡ true) ⊎ IsOwner report.owner_user_id)

  check_owner-IsOwner {ℓ} :
      {A : Type ℓ} (owner : Option ℕ) (forbidden : DomainError) (value : A) (g : Granted A)
      (r : Result DomainError (Authenticated User))
      → check_owner token_hash settings auth_configured request owner forbidden value r ≡ ok g
      → (a : Authenticated User) × (r ≡ ok a) × (owner ≡ some a.user.id)
  check_owner-IsOwner owner forbidden value g (error e) h = absurd (ground arith)
  check_owner-IsOwner owner forbidden value g (ok a) h =
      (a, refl, (option_eq_iff owner (some a.user.id)).0 (ground arith))

  require_owner-IsOwner {ℓ} :
      {A : Type ℓ} (owner : Option ℕ) (forbidden : DomainError) (value : A) (g : Granted A)
      → require_owner token_hash settings auth_configured request owner forbidden value response db
        ≡ ok g
      → IsOwner owner
  unfolding require_owner
  require_owner-IsOwner owner forbidden value g h =
      check_owner-IsOwner owner forbidden value g (required token_hash settings request response db)
        h

  authorize_report-MayRead {ℓ} :
      {A : Type ℓ} (report : ReportSnapshot) (value : A) (g : Granted A)
      → authorize_report token_hash settings auth_configured request report value response db ≡ ok g
      → MayRead report
  unfolding authorize_report
  authorize_report-MayRead report value g h = elim (Bool-cases auth_configured) [
    | inr e ↦ inl e
    | inl e ↦ elim (Bool-cases report.is_public_sample) [
      | inl p ↦ inr (inl p)
      | inr p ↦
          inr (
            inr
              (require_owner-IsOwner report.owner_user_id report_forbidden value g (ground arith)))
    ]
  ]

  check_owner-value {ℓ} :
      {A : Type ℓ} (owner : Option ℕ) (forbidden : DomainError) (value : A) (g : Granted A)
      (r : Result DomainError (Authenticated User))
      → check_owner token_hash settings auth_configured request owner forbidden value r ≡ ok g
      → g.value ≡ value
  check_owner-value owner forbidden value g (error e) h = absurd (ground arith)
  check_owner-value owner forbidden value g (ok a) h =
      elim (Bool-cases (option_eq owner (some a.user.id))) [
        | inl e ↦ ground (arith, h, e)
        | inr e ↦ absurd (ground (arith, h, e))
      ]

  authorize_report-value {ℓ} :
      {A : Type ℓ} (report : ReportSnapshot) (value : A) (g : Granted A)
      → authorize_report token_hash settings auth_configured request report value response db ≡ ok g
      → g.value ≡ value
  unfolding authorize_report require_owner
  authorize_report-value report value g h =
      elim (Bool-cases (not auth_configured || report.is_public_sample)) [
        | inl e ↦ ground (arith, h, e)
        | inr e ↦
            check_owner-value report.owner_user_id report_forbidden value g
              (required token_hash settings request response db) (ground (arith, h, e))
      ]

  -- With logins on, a job is shown to its owner only.
  authorize_job-IsOwner :
      (job : AnalysisJob) (g : Granted AnalysisJob)
      → auth_configured ≡ true
      → authorize_job token_hash settings auth_configured request job response db ≡ ok g
      → IsOwner job.user_id
  unfolding authorize_job
  authorize_job-IsOwner job g on h =
      require_owner-IsOwner job.user_id job_forbidden job g (ground arith)

  -- A report that is shown, or a file that is downloaded, belongs to a report that logins do not
  -- protect, that is a public sample, or whose owner the request's session logs in.
  pub authorized_report-MayRead :
      (report_id : ℕ) (g : Granted ReportSnapshot)
      → authorized_report token_hash settings auth_configured request report_id response db ≡ ok g
      → (report_of report_id db ≡ some g.value) × MayRead g.value
  unfolding authorized_report
  authorized_report-MayRead report_id g h = go (report_of report_id db) h
    where
      go :
          (o : Option ReportSnapshot)
          → elim o [
            | none ↦ error report_not_found
            | some report ↦
                authorize_report token_hash settings auth_configured request report report response
                  db
          ]
            ≡ ok g
          → (o ≡ some g.value) × MayRead g.value
      go none k = absurd (ground arith)
      go (some report) k =
          let same = authorize_report-value report report g k in
          (
            ap some (sym same),
            subst MayRead (sym same) (authorize_report-MayRead report report g k),
          )

  export_report :
      (e : ReportExport) (g : Granted ReportExport)
      → authorize_export token_hash settings auth_configured request e response db ≡ ok g
      → (g.value ≡ e)
        × ((report : ReportSnapshot) × (report_of e.report_snapshot_id db ≡ some report)
            × MayRead report)
  unfolding authorize_export
  export_report e g h = go (report_of e.report_snapshot_id db) refl h
    where
      go :
          (o : Option ReportSnapshot)
          → report_of e.report_snapshot_id db ≡ o
          → elim o [
            | none ↦ error report_not_found
            | some report ↦
                authorize_report token_hash settings auth_configured request report e response db
          ]
            ≡ ok g
          → (g.value ≡ e)
            × ((report : ReportSnapshot) × (report_of e.report_snapshot_id db ≡ some report)
                × MayRead report)
      go none q k = absurd (ground arith)
      go (some report) q k =
          (authorize_report-value report e g k, (report, q, authorize_report-MayRead report e g k))

  file_of-ok :
      (r : Result DomainError (Granted ReportExport)) (f : Granted (List ℕ))
      → file_of token_hash settings auth_configured request r ≡ ok f
      → (g : Granted ReportExport) × (r ≡ ok g) × (g.value.file_blob ≡ some f.value)
  file_of-ok (error e) f h = absurd (ground arith)
  file_of-ok (ok g) f h = (g, refl, ground arith)

  -- A downloaded file is the stored one of an export whose report logins do not protect, is a public
  -- sample, or belongs to the user whom the request's session logs in.
  pub download_export-MayRead :
      (export_id : ℕ) (f : Granted (List ℕ))
      → download_export token_hash settings auth_configured request export_id response db ≡ ok f
      → (e : ReportExport) × (export_of export_id db ≡ some e)
        × (e.file_blob ≡ some f.value)
        × ((report : ReportSnapshot) × (report_of e.report_snapshot_id db ≡ some report)
            × MayRead report)
  unfolding download_export
  download_export-MayRead export_id f h = go (export_of export_id db) refl h
    where
      go :
          (o : Option ReportExport)
          → export_of export_id db ≡ o
          → elim o [
            | none ↦ error export_not_found
            | some e ↦
                file_of token_hash settings auth_configured request
                  (authorize_export token_hash settings auth_configured request e response db)
          ]
            ≡ ok f
          → (e : ReportExport) × (export_of export_id db ≡ some e)
            × (e.file_blob ≡ some f.value)
            × ((report : ReportSnapshot) × (report_of e.report_snapshot_id db ≡ some report)
                × MayRead report)
      go none q k = absurd (ground arith)
      go (some e) q k =
          let (g, a, b) =
            file_of-ok (authorize_export token_hash settings auth_configured request e response db)
              f k in
          let (same, owned) = export_report e g a in
          (e, q, subst (λ x. x.file_blob ≡ some f.value) same b, owned)
