-- ===== src/Jobs/Worker.antt =====
-- JobWorker of app/jobs/worker.py. `handlers_for` is the handler factory, `locked` tells which job rows
-- other transactions hold at the two queries of the first transaction.
pub mod Claims
use hate_speech_rag_service.Common.{ℕ, ◌-◌, Bool, Option, none, some, or_else}
use hate_speech_rag_service.Db.JobRows.{JobStatus, AnalysisJob}
use hate_speech_rag_service.Db.Database.{Database}
use hate_speech_rag_service.Jobs.Repository.{claim_pending, recover_stale_running, update_job}
use hate_speech_rag_service.Jobs.Orchestrator.{Handlers, RunEnd, run_job}

-- What `run_once` does: it returns false, or runs a job and returns true.
pub data Poll : Type 0 where
  idle : Database → Poll
  ran : (job_id : ℕ) → RunEnd → Poll

abbrev pub claim : AnalysisJob → Database → Database
claim job db =
    update_job job.id
      (λ row. record row {
        status = JobStatus.running;
        started_at = or_else job.started_at (some db.now);
      })
      db

-- The database after the recovery of at most one stale job.
abbrev pub recovered : (ℕ → Bool) → ℕ → Database → Database
recovered locked stale_after_seconds db =
    (recover_stale_running locked (db.now - stale_after_seconds) db).1

unfoldable pub run_once : (ℕ → Handlers) → (ℕ → Bool) → ℕ → Database → Poll
unfolding recover_stale_running claim_pending run_job
run_once handlers_for locked stale_after_seconds db =
    let ready = recovered locked stale_after_seconds db in
    elim (claim_pending locked ready) [
      | none ↦ idle ready
      | some job ↦ ran job.id (run_job (handlers_for job.id) job.id (claim job ready))
    ]
