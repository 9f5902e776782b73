-- ===== src/Reporting/Exports/Delivery.antt =====
-- What becomes of an export after `create`.
use mathlib.Core.List.{head?}
use hate_speech_rag_service.Common.{
  ℕ, ◌≤◌, ◌<◌, String, Bool, true, false, ◌&&◌, ◌||◌, Option, none, some, List, [], ◌∷◌, ◌++◌, ◌==◌,
  nat_Eq, string_Eq, ◌≡◌, refl, ap, ◌∙◌, arith, if◌then◌else◌, leb, filter, sort_desc, insert_desc,
  All, ==_iff, ==_refl, is_none, any, any-append,
}
use hate_speech_rag_service.Common.Errors.{DomainError, Result, ok, error}
use hate_speech_rag_service.Db.JobRows.{JobStatus}
use hate_speech_rag_service.Db.Results.{ReportSnapshot, ReportExport}
use hate_speech_rag_service.Db.Database.{Database}
use hate_speech_rag_service.Reporting.Exports.{
  new_export, add_export, render, settle_export, create, latest_succeeded, is_export_succeeded,
  export_error, export_result, unsupported_format,
}

-- A row that is younger than all others comes first.
head?-insert_desc :
    (e : ReportExport) (rows : List ReportExport)
    → head? (insert_desc (λ r. r.created_at) e rows) ≡ elim (head? rows) [
      | none ↦ some e
      | some first ↦ if leb first.created_at e.created_at then some e else some first
    ]
head?-insert_desc e [] = refl
head?-insert_desc e (r ∷ rows) = ground arith

newest_first :
    (rows : List ReportExport) (e : ReportExport)
    → All (λ r. r.created_at < e.created_at) rows
    → head? (sort_desc (λ r. r.created_at) (rows ++ e ∷ [])) ≡ some e
newest_first [] e h = refl
newest_first (r ∷ rows) e h = ground (
  arith,
  head?-insert_desc r (sort_desc (λ x. x.created_at) (rows ++ e ∷ [])),
  newest_first rows e h.1,
  h.0,
)

filter-append :
    (p : ReportExport → Bool) (xs ys : List ReportExport)
    → filter p (xs ++ ys) ≡ filter p xs ++ filter p ys
filter-append p [] ys = refl
filter-append p (x ∷ xs) ys = ground (arith, filter-append p xs ys)

filter_last_out :
    (p : ReportExport → Bool) (xs : List ReportExport) (e : ReportExport)
    → p e ≡ false
    → filter p (xs ++ e ∷ []) ≡ filter p xs
filter_last_out p [] e out = ground (arith, out)
filter_last_out p (x ∷ xs) e out = ground (arith, filter_last_out p xs e out)

All-filter :
    (P : ReportExport → Type 0) (p : ReportExport → Bool) (xs : List ReportExport)
    → All P xs
    → All P (filter p xs)
All-filter P p [] h = tt
All-filter P p (x ∷ xs) h = go (p x) (All-filter P p xs h.1)
  where
    go : (b : Bool) → All P (filter p xs) → All P (if b then x ∷ filter p xs else filter p xs)
    go true ih = (h.0, ih)
    go false ih = ih

-- A failed export has no file.
abbrev pub is_failed_file : ReportExport → Bool
is_failed_file r = is_failed_status r.status && is_none r.file_blob
  where
    is_failed_status : JobStatus → Bool
    is_failed_status JobStatus.failed = true
    is_failed_status _ = false

abbrev pub supported_format : String → Bool
supported_format format = format == "html" || format == "xlsx"

module _ (html excel : ReportSnapshot → Database → Option (List ℕ)) (sha256 : List ℕ → String) where
  latest_succeeded-add_export :
      (started_at : ℕ) (report : ReportSnapshot) (format : String) (e : ReportExport)
      (db : Database)
      → e.report_snapshot_id ≡ report.id
      → e.format ≡ format
      → e.status ≡ JobStatus.succeeded
      → started_at ≤ e.created_at
      → All (λ r. r.created_at < e.created_at) db.report_exports
      → latest_succeeded html excel sha256 started_at report format (add_export e db) ≡ some e
  unfolding latest_succeeded
  latest_succeeded-add_export started_at report format e db of_report of_format done began older =
      let fits : ReportExport → Bool = λ r.
        r.report_snapshot_id == report.id
        && r.format == format
        && is_export_succeeded r.status
        && leb started_at r.created_at in
      let fitting : fits e ≡ true = ground (
        arith,
        ap is_export_succeeded done,
        (==_iff e.report_snapshot_id report.id).1 of_report,
        (==_iff e.format format).1 of_format,
      ) in
      ap (λ rows. head? (sort_desc (λ r. r.created_at) rows))
        (filter-append fits db.report_exports (e ∷ [])
          ∙ ap (λ b. filter fits db.report_exports ++ (if b then e ∷ [] else [])) fitting)
      ∙ newest_first (filter fits db.report_exports) e
          (All-filter (λ r. r.created_at < e.created_at) fits db.report_exports older)

  -- `create` with a known format and the outcome of its renderer.
  pub create_rendered :
      (report : ReportSnapshot) (format : String) (content : Option (List ℕ)) (db : Database)
      → supported_format format ≡ true
      → render html excel sha256 format report (add_export (new_export report format db) db)
        ≡ content
      → create html excel sha256 report format db ≡ (
        export_result html excel sha256 content
            (settle_export html excel sha256 content db.now (new_export report format db)),
        add_export
            (settle_export html excel sha256 content db.now (new_export report format db))
            db,
      )
  unfolding create
  create_rendered report format content db known rendered =
      let new = new_export report format db in
      let done : Option (List ℕ) → Result DomainError ReportExport × Database = λ c. (
        export_result html excel sha256 c (settle_export html excel sha256 c db.now new),
        add_export (settle_export html excel sha256 c db.now new) db,
      ) in
      ap
        (λ b.
          if b
          then done (render html excel sha256 format report (add_export new db))
          else (error unsupported_format, db))
        known
      ∙ ap done rendered

  -- An export of a supported format whose renderer returns is stored as succeeded with the rendered
  -- bytes, and it is the one that is reused next, if the process began before and all other exports
  -- are older.
  pub latest_succeeded-create :
      (started_at : ℕ) (report : ReportSnapshot) (format : String) (content : List ℕ)
      (db : Database)
      → supported_format format ≡ true
      → render html excel sha256 format report (add_export (new_export report format db) db)
        ≡ some content
      → started_at ≤ db.now
      → All (λ r. r.created_at < db.now) db.report_exports
      → (e : ReportExport) × ((create html excel sha256 report format db).0 ≡ ok e)
        × (e.file_blob ≡ some content)
        × (latest_succeeded html excel sha256 started_at report format
              (create html excel sha256 report format db).1
            ≡ some e)
  latest_succeeded-create started_at report format content db known rendered began older =
      let e = settle_export html excel sha256 (some content) db.now (new_export report format db) in
      let created = create_rendered report format (some content) db known rendered in
      (
        e,
        ap (λ p. p.0) created,
        refl,
        ap (λ p. latest_succeeded html excel sha256 started_at report format p.1) created
            ∙ latest_succeeded-add_export started_at report format e db refl refl refl began older,
      )

  -- Where the renderer of a supported format raises, EXPORT_ERROR is raised, the failed row is stored
  -- without a file, and the exports that are reused stay the same.
  pub create-failed :
      (report : ReportSnapshot) (format : String) (db : Database)
      → supported_format format ≡ true
      → render html excel sha256 format report (add_export (new_export report format db) db) ≡ none
      → ((create html excel sha256 report format db).0 ≡ error export_error)
        × (any
              (λ r. r.id == db.next_id && is_failed_file r)
              (create html excel sha256 report format db).1.report_exports
            ≡ true)
        × ((started_at : ℕ) (other : ReportSnapshot) (other_format : String)
            → latest_succeeded html excel sha256 started_at other other_format
                (create html excel sha256 report format db).1
              ≡ latest_succeeded html excel sha256 started_at other other_format db)
  unfolding latest_succeeded
  create-failed report format db known raised =
      let e = settle_export html excel sha256 none db.now (new_export report format db) in
      let created = create_rendered report format none db known raised in
      (
        ap (λ p. p.0) created,
        ap (λ p. any (λ r. r.id == db.next_id && is_failed_file r) p.1.report_exports) created
            ∙ any-append (λ r. r.id == db.next_id && is_failed_file r) db.report_exports (e ∷ [])
            ∙ ground (arith, ==_refl db.next_id),
        λ started_at other other_format.
            ap (λ p. latest_succeeded html excel sha256 started_at other other_format p.1) created
            ∙ ap (λ rows. head? (sort_desc (λ r. r.created_at) rows))
                (filter_last_out
                  (λ r.
                    r.report_snapshot_id == other.id
                    && r.format == other_format
                    && is_export_succeeded r.status
                    && leb started_at r.created_at)
                  db.report_exports e (ground arith)),
      )
