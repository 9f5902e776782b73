-- ===== src/Jobs/Orchestrator/Verdict.antt =====
-- What `_finalize` makes of a job.
use hate_speech_rag_service.Common.{
  ℕ, true, false, some, List, ◌≡◌, ◌≢◌, ◌↔◌, ◌⊎◌, ◌==◌, nat_Eq, find?, Any, All, any→Any, Any→any,
  Any-map, All-update_where, All-trivial, arith, nat_eq_iff,
}
use hate_speech_rag_service.Db.JobRows.{StepStatus, step_pending, JobStep}
use hate_speech_rag_service.Db.Database.{Database}
use hate_speech_rag_service.Jobs.Repository.{list_steps}
use hate_speech_rag_service.Jobs.Orchestrator.{
  required_failed, final_status, is_finalize, finalize, finalized, skip_step, close_job,
  is_left_over,
}

-- A required step other than the finalize step failed.
abbrev pub RequiredFailure : ℕ → List JobStep → Type 0
RequiredFailure last =
    Any (λ s. (s.is_required ≡ true) × (s.status ≡ StepStatus.failed) × (s.id ≢ last))

-- An optional step failed or was skipped.
abbrev pub OptionalGap : List JobStep → Type 0
OptionalGap = Any (λ s.
    (s.is_required ≡ false) × ((s.status ≡ StepStatus.failed) ⊎ (s.status ≡ StepStatus.skipped)))

required_failed_iff :
    (last : ℕ) (steps : List JobStep)
    → (required_failed last steps ≡ true) ↔ RequiredFailure last steps
required_failed_iff last steps = (
  λ h. Any-map _ _ steps (λ s e. ground (arith, nat_eq_iff s.id last)) (any→Any _ steps h),
  λ h. Any→any _ steps (Any-map _ _ steps (λ s e. ground (arith, nat_eq_iff s.id last)) h),
)

module _ (job_id : ℕ) (last : JobStep) (steps : List JobStep) (db : Database) where
  close_job_no_pending :
      required_failed last.id steps ≡ true
      → All
          (λ s. s.job_id ≡ job_id → step_pending s.status ≡ false)
          (close_job job_id last steps db).job_steps
  unfolding close_job
  close_job_no_pending failure = rw failure (
      All-update_where (λ s. s.id ≡ last.id → step_pending s.status ≡ false)
        (λ s. s.job_id ≡ job_id → step_pending s.status ≡ false) (is_left_over job_id last.id)
        (skip_step db.now) _
        (λ s settled mine.
          ground (arith, settled, nat_eq_iff s.job_id job_id, nat_eq_iff s.id last.id))
        (All-update_where (λ _. Unit {0}) (λ s. s.id ≡ last.id → step_pending s.status ≡ false)
          (λ s. s.id == last.id) (finalized db.now (final_status last.id steps)) db.job_steps
          (λ s _ same. ground (arith, nat_eq_iff s.id last.id)) (All-trivial db.job_steps)))

-- Where a job has a finalize step and a required failure, its finalization ends with every step of the
-- job no longer pending.
pub finalize_no_pending :
    (job_id : ℕ) (db : Database) (last : JobStep)
    → find? is_finalize (list_steps job_id db) ≡ some last
    → RequiredFailure last.id (list_steps job_id db)
    → (db' : Database) × (finalize job_id db ≡ some db')
      × All (λ s. s.job_id ≡ job_id → step_pending s.status ≡ false) db'.job_steps
unfolding finalize
finalize_no_pending job_id db last found failure = (
  close_job job_id last (list_steps job_id db) db,
  rw (found, finalize),
  close_job_no_pending job_id last (list_steps job_id db) db
      ((required_failed_iff last.id (list_steps job_id db)).1 failure),
)
