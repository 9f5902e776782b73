-- ===== src/Jobs/Orchestrator.antt =====
-- JobOrchestrator of app/jobs/orchestrator.py.
pub mod Fencing
pub mod Attempts
pub mod Verdict
use hate_speech_rag_service.Common.{
  ℕ, zero, suc, ◌+◌, String, Bool, true, false, not, ◌&&◌, ◌||◌, Option, none, some, List, [], ◌∷◌,
  ◌==◌, nat_Eq, string_Eq, if◌then◌else◌, find?, any, update_where, or_else,
}
use hate_speech_rag_service.Common.Json.{JsonDict, str}
use hate_speech_rag_service.Db.JobRows.{
  JobStatus, StepStatus, job_running, step_running, step_pending, step_succeeded, step_failed,
  step_incomplete, AnalysisJob, JobStep,
}
use hate_speech_rag_service.Db.Database.{Database}
use hate_speech_rag_service.Jobs.Repository.{
  get, list_steps, update_step, update_job, add_log, reset_step, reset_job,
}

pub record StepResult : Type 0 where
  pub status : StepStatus
  pub metrics : JsonDict
  pub error_code : Option String
  pub error_message : Option String

-- How a handler ends: it returns, or raises one of the exceptions that `_run_step` tells apart.
pub data Outcome : Type 0 where
  returned : StepResult → Outcome
  shutdown_requested stale_execution unexpected_error : Outcome
  domain_error : (code message : String) → Outcome

-- A handler may commit, through its own session or through that of a result store, and other
-- workers write meanwhile: `committed` is what a rollback goes back to, `working` what the session
-- sees when the handler ends.
pub record HandlerRun : Type 0 where
  pub outcome : Outcome
  pub committed : Database
  pub working : Database

abbrev pub StepHandler : Type 0
StepHandler = AnalysisJob → Database → HandlerRun

-- The dictionary `handlers`, read by `handlers.get`.
abbrev pub Handlers : Type 0
Handlers = String → Option StepHandler

abbrev pub failed_result : String → String → StepResult
failed_result code message = record {
  status = StepStatus.failed;
  metrics = [];
  error_code = some code;
  error_message = some message;
}

abbrev pub unexpected_result : StepResult
unexpected_result = failed_result "UNEXPECTED_ERROR" "단계 실행 중 오류가 발생했습니다."

abbrev pub not_configured : StepResult
not_configured = record {
  status = StepStatus.skipped;
  metrics = [];
  error_code = some "STEP_NOT_CONFIGURED";
  error_message = none;
}

-- `status == "running" and attempt_count == expected_attempt`, at the row of the step.
abbrev pub is_current : ℕ → ℕ → JobStep → Bool
is_current step_id expected_attempt step =
    step.id == step_id && step_running step.status && step.attempt_count == expected_attempt

abbrev pub apply_result : ℕ → StepResult → JobStep → JobStep
apply_result finished_at result step = record step {
  status = result.status;
  metrics = result.metrics;
  error_code = result.error_code;
  error_message = result.error_message;
  finished_at = some finished_at;
  heartbeat_at = some finished_at;
}

unfoldable pub finish_step_if_current : ℕ → ℕ → StepResult → Database → Bool × Database
finish_step_if_current step_id expected_attempt result db =
    let current = is_current step_id expected_attempt in
    (
      any current db.job_steps,
      record db { job_steps = update_where current (apply_result db.now result) db.job_steps },
    )

-- The job goes back to pending only with its step, and only if it is still running.
unfoldable pub release_step : ℕ → ℕ → ℕ → Database → Database
release_step job_id step_id expected_attempt db =
    let current = is_current step_id expected_attempt in
    let released = record db { job_steps = update_where current reset_step db.job_steps } in
    if any current db.job_steps
    then record released {
      analysis_jobs =
          update_where (λ job. job.id == job_id && job_running job.status) reset_job
            db.analysis_jobs;
    }
    else released

unfoldable pub finish_step : JobStep → StepResult → Database → Database
finish_step step result db = update_step step.id (apply_result db.now result) db

-- The row's update at the start of an attempt: the session writes the changed columns of `step`.
abbrev pub begin_attempt : ℕ → JobStep → JobStep → JobStep
begin_attempt now step row = record row {
  status = StepStatus.running;
  attempt_count = step.attempt_count + 1;
  started_at = some now;
  heartbeat_at = some now;
}

unfoldable pub start_step : JobStep → Database → Database
start_step step db = update_step step.id (begin_attempt db.now step) db

unfoldable pub record_result : ℕ → JobStep → ℕ → StepResult → Database → Option Bool × Database
unfolding finish_step_if_current
record_result job_id step expected_attempt result db =
    let (current, finished) = finish_step_if_current step.id expected_attempt result db in
    if current
    then (
      some (step_succeeded result.status),
      add_log job_id step.id (if step_succeeded result.status then "info" else "warning")
          "step_finished" step.step_key [] finished,
    )
    else (none, add_log job_id step.id "warning" "stale_step_result_discarded" step.step_key [] db)

-- The `except` clauses, each of which starts with a rollback to `committed`.
unfoldable pub conclude : AnalysisJob → JobStep → ℕ → HandlerRun → Option Bool × Database
unfolding record_result release_step
conclude job step expected_attempt run = elim run.outcome [
  | returned result ↦ record_result job.id step expected_attempt result run.working
  | shutdown_requested ↦ (
    none,
    add_log job.id step.id "warning" "step_released_on_shutdown" step.step_key []
        (release_step job.id step.id expected_attempt run.committed),
  )
  | stale_execution ↦ (
    none,
    add_log job.id step.id "warning" "stale_step_result_discarded" step.step_key [] run.committed,
  )
  | unexpected_error ↦ record_result job.id step expected_attempt unexpected_result run.committed
  | domain_error code message ↦
      record_result job.id step expected_attempt (failed_result code message) run.committed
]

-- The start of an attempt, committed, and the handler's run.
unfoldable pub attempt : AnalysisJob → JobStep → StepHandler → Database → HandlerRun
unfolding start_step
attempt job step handler db =
    handler job (add_log job.id step.id "info" "step_started" step.step_key [] (start_step step db))

-- `none` is the source's `None`: the run gives the job up.
unfoldable pub run_step : AnalysisJob → JobStep → StepHandler → Database → Option Bool × Database
unfolding attempt conclude
run_step job step handler db =
    conclude job step (step.attempt_count + 1) (attempt job step handler db)

abbrev pub rolls_back : Outcome → Bool
rolls_back (returned _) = false
rolls_back _ = true

-- An object that a rollback expired is read again at its next use.
abbrev pub reload : JobStep → Database → JobStep
reload step db = elim (find? (λ row. row.id == step.id) db.job_steps) [
  | none ↦ step
  | some row ↦ row
]

-- The loop of `run_job`: true if it runs to its end or breaks, false if it gives the job up.
-- `expired` tells whether a rollback has expired the steps that were listed at the start.
unfoldable pub run_steps : Handlers → AnalysisJob → Bool → List JobStep → Database → Bool × Database
unfolding finish_step run_step
run_steps handlers job expired [] db = (true, db)
run_steps handlers job expired (listed ∷ rest) db =
    let step = if expired then reload listed db else listed in
    elim (not (step_pending step.status) || step.step_key == "finalize_job") [
      | true ↦ run_steps handlers job expired rest db
      | false ↦ elim (handlers step.step_key) [
        | none ↦ run_steps handlers job expired rest (finish_step step not_configured db)
        | some handler ↦
            let (succeeded, after) = run_step job step handler db in
            elim succeeded [
              | none ↦ (false, after)
              | some ok ↦ elim (not ok && step.is_required) [
                | true ↦ (true, after)
                | false ↦
                    run_steps handlers job
                      (expired || rolls_back (attempt job step handler db).outcome) rest after
              ]
            ]
      ]
    ]

abbrev pub is_finalize : JobStep → Bool
is_finalize step = step.step_key == "finalize_job"

abbrev pub required_failed : ℕ → List JobStep → Bool
required_failed finalize_id =
    any (λ step. step.is_required && step_failed step.status && not (step.id == finalize_id))

abbrev pub optional_incomplete : List JobStep → Bool
optional_incomplete = any (λ step. not step.is_required && step_incomplete step.status)

unfoldable pub final_status : ℕ → List JobStep → JobStatus
final_status finalize_id steps =
    if required_failed finalize_id steps
    then JobStatus.failed
    else if optional_incomplete steps
    then JobStatus.partial_success
    else JobStatus.succeeded

abbrev pub status_name : JobStatus → String
status_name JobStatus.pending = "pending"
status_name JobStatus.running = "running"
status_name JobStatus.succeeded = "succeeded"
status_name JobStatus.partial_success = "partial_success"
status_name JobStatus.failed = "failed"

abbrev pub finalized : ℕ → JobStatus → JobStep → JobStep
finalized at status step = record step {
  status = StepStatus.succeeded;
  attempt_count = step.attempt_count + 1;
  started_at = some at;
  finished_at = some at;
  heartbeat_at = some at;
  metrics = ("final_status", str (status_name status)) ∷ [];
}

abbrev pub skip_step : ℕ → JobStep → JobStep
skip_step at step = record step {
  status = StepStatus.skipped;
  error_code = some "UPSTREAM_REQUIRED_STEP_FAILED";
  finished_at = some at;
  heartbeat_at = some at;
}

abbrev pub is_left_over : ℕ → ℕ → JobStep → Bool
is_left_over job_id last_id step =
    step.job_id == job_id && step_pending step.status && not (step.id == last_id)

-- The writes of `_finalize`, for the job's steps and the finalize step among them.
unfoldable pub close_job : ℕ → JobStep → List JobStep → Database → Database
close_job job_id last steps db =
    let status = final_status last.id steps in
    let closed =
      update_step last.id (finalized db.now status)
        (update_job job_id (λ job. record job { status = status; finished_at = some db.now }) db) in
    if required_failed last.id steps
    then record closed {
      job_steps = update_where (is_left_over job_id last.id) (skip_step db.now) closed.job_steps;
    }
    else closed

-- `none` is the `StopIteration` of a job that has no finalize step.
unfoldable pub finalize : ℕ → Database → Option Database
finalize job_id db =
    let steps = list_steps job_id db in
    elim (find? is_finalize steps) [
      | none ↦ none
      | some last ↦ some (close_job job_id last steps db)
    ]

-- How `run_job` ends.
pub data RunEnd : Type 0 where
  unknown_job no_finalize_step : RunEnd
  gave_up finished : Database → RunEnd

abbrev pub begin_job : AnalysisJob → Database → Database
begin_job job db =
    update_job job.id
      (λ row. record row {
        status = JobStatus.running;
        started_at = or_else job.started_at (some db.now);
      })
      db

unfoldable pub run_job : Handlers → ℕ → Database → RunEnd
unfolding run_steps finalize
run_job handlers job_id db = elim (get job_id db) [
  | none ↦ unknown_job
  | some job ↦
      let begun = begin_job job db in
      let (complete, after) = run_steps handlers job false (list_steps job.id begun) begun in
      if complete
      then elim (finalize job.id after) [ none ↦ no_finalize_step | some done ↦ finished done ]
      else gave_up after
]
