-- ===== src/Reporting/Pipeline.antt =====
-- build_reporting_handlers of app/reporting/pipeline.py. A handler's errors leave the database as it
-- was given.
use hate_speech_rag_service.Common.{
  ℕ, String, none, some, [], ◌∷◌, ◌==◌, nat_Eq, string_Eq, if◌then◌else◌, update_where,
}
use hate_speech_rag_service.Common.Json.{str}
use hate_speech_rag_service.Common.Errors.{DomainError, Result, ok, error}
use hate_speech_rag_service.Db.Results.{AnalysisRun, CommentNetwork, ReportSnapshot}
use hate_speech_rag_service.Db.Database.{Database}
use hate_speech_rag_service.Jobs.Orchestrator.{returned, HandlerRun, Handlers, StepHandler}
use hate_speech_rag_service.Jobs.Handlers.{uncommitted, done, raised, latest_run, no_run}
use hate_speech_rag_service.Reporting.Network.{build}
use hate_speech_rag_service.Reporting.Report.{build_snapshot}

module _ (show_id iso : ℕ → String) where
  abbrev pub network_run : Database → CommentNetwork × Database → HandlerRun
  network_run db (network, after) =
      uncommitted (returned (done (("network_id", str (show_id network.id)) ∷ network.summary))) db
        after

  unfoldable pub build_network : StepHandler
  unfolding latest_run build
  build_network job db = elim (latest_run job.id db) [
    | none ↦ uncommitted (raised no_run) db db
    | some run ↦ network_run db (build show_id run db)
  ]

  -- The run takes the status of its report.
  abbrev pub report_run :
      AnalysisRun → Database → Result DomainError (ReportSnapshot × Database) → HandlerRun
  report_run run db (error e) = uncommitted (raised e) db db
  report_run run db (ok (report, after)) =
      uncommitted (returned (done (("report_id", str (show_id report.id)) ∷ []))) db (record after {
        analysis_runs =
            update_where (λ row. row.id == run.id) (λ row. record row { status = report.status })
              after.analysis_runs;
      })

  unfoldable pub build_report : StepHandler
  unfolding latest_run build_snapshot
  build_report job db = elim (latest_run job.id db) [
    | none ↦ uncommitted (raised no_run) db db
    | some run ↦ report_run run db (build_snapshot iso run db)
  ]

  unfoldable pub reporting_handlers : Handlers
  unfolding build_network build_report
  reporting_handlers step_key =
      if step_key == "build_comment_network"
      then some build_network
      else if step_key == "build_report_snapshot"
      then some build_report
      else none
