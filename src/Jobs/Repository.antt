-- ===== src/Jobs/Repository.antt =====
-- AnalysisJobRepository of app/db/repositories.py. A method takes the database and returns the new
-- one. `locked` tells which job rows another transaction holds: `SKIP LOCKED` passes over those.
use mathlib.Core.List.{head?}
use hate_speech_rag_service.Common.{
  ℕ, suc, ◌+◌, String, Bool, true, false, not, ◌&&◌, Option, none, some, List, [], ◌∷◌, ◌++◌, ltb,
  ◌==◌, nat_Eq, string_Eq, if◌then◌else◌, filter, find?, sort_by, update_where, or_else, length,
  is_some,
}
use hate_speech_rag_service.Common.Json.{JsonDict, int}
use hate_speech_rag_service.Db.JobRows.{
  JobStatus, StepStatus, job_pending, job_running, step_running, AnalysisJob, JobStep,
}
use hate_speech_rag_service.Db.Database.{Database}

abbrev pub default_job_steps : List (String × Bool)
default_job_steps =
    ("validate_input", true)
    ∷ ("collect_metadata", true)
    ∷ ("collect_comments", false)
    ∷ ("collect_transcript", false)
    ∷ ("create_analysis_run", true)
    ∷ ("analyze_comments", false)
    ∷ ("analyze_script", false)
    ∷ ("build_comment_network", false)
    ∷ ("build_report_snapshot", true)
    ∷ ("finalize_job", true)
    ∷ []

abbrev pub new_job : String → String → Option ℕ → JsonDict → Database → AnalysisJob
new_job input_value youtube_video_id user_id request_options db = record {
  id = db.next_id;
  user_id = user_id;
  input_value = input_value;
  youtube_video_id = youtube_video_id;
  status = JobStatus.pending;
  requested_by = none;
  request_options = request_options;
  error_summary = none;
  created_at = db.now;
  started_at = none;
  finished_at = none;
}

abbrev pub new_step : ℕ → ℕ → String → Bool → JobStep
new_step id job_id step_key is_required = record {
  id = id;
  job_id = job_id;
  step_key = step_key;
  status = StepStatus.pending;
  attempt_count = 0;
  is_required = is_required;
  error_code = none;
  error_message = none;
  metrics = [];
  items_total = none;
  items_completed = 0;
  items_succeeded = 0;
  items_failed = 0;
  heartbeat_at = none;
  started_at = none;
  finished_at = none;
}

-- The steps get the ids that follow the job's.
unfoldable pub new_steps : ℕ → ℕ → List (String × Bool) → List JobStep
new_steps id job_id [] = []
new_steps id job_id ((step_key, is_required) ∷ steps) =
    new_step id job_id step_key is_required ∷ new_steps (suc id) job_id steps

unfoldable pub create :
    String → String → Option ℕ → JsonDict → List (String × Bool) → Database → AnalysisJob × Database
create input_value youtube_video_id user_id request_options steps db =
    let job = new_job input_value youtube_video_id user_id request_options db in
    (
      job,
      record db {
        analysis_jobs = db.analysis_jobs ++ job ∷ [];
        job_steps = db.job_steps ++ new_steps (suc job.id) job.id steps;
        next_id = suc db.next_id + length steps;
      },
    )

unfoldable pub get : ℕ → Database → Option AnalysisJob
get job_id db = find? (λ job. job.id == job_id) db.analysis_jobs

-- The index of a step's key in `DEFAULT_JOB_STEPS`. The source raises `KeyError` at a key that is
-- not there, which no row has, since `create` is the one place that adds steps; here it goes last.
unfoldable pub position : String → List (String × Bool) → ℕ
position step_key [] = 0
position step_key ((key, _) ∷ rest) =
    let later = position step_key rest in if key == step_key then 0 else suc later

unfoldable pub step_order : JobStep → ℕ
unfolding position
step_order step = position step.step_key default_job_steps

unfoldable pub list_steps : ℕ → Database → List JobStep
unfolding step_order
list_steps job_id db = sort_by step_order (filter (λ step. step.job_id == job_id) db.job_steps)

unfoldable pub claim_pending : (ℕ → Bool) → Database → Option AnalysisJob
claim_pending locked db = head? (
    sort_by (λ job. job.created_at)
      (filter (λ job. job_pending job.status && not (locked job.id)) db.analysis_jobs))

-- `coalesce(heartbeat_at, started_at) < stale_before`, which is not true of NULL.
unfoldable pub is_stale : ℕ → JobStep → Bool
is_stale stale_before step = elim (or_else step.heartbeat_at step.started_at) [
  | none ↦ false
  | some seen ↦ ltb seen stale_before
]

-- The rows of the join: a running and stale step of a running job that is not locked.
unfoldable pub recoverable : (ℕ → Bool) → ℕ → Database → JobStep → Bool
unfolding is_stale
recoverable locked stale_before db step =
    step_running step.status
    && is_stale stale_before step
    && is_some (
        find? (λ job. job.id == step.job_id && job_running job.status && not (locked job.id))
          db.analysis_jobs)

abbrev pub start_time : JobStep → ℕ
start_time step = elim step.started_at [ none ↦ 0 | some at ↦ at ]

abbrev pub update_step : ℕ → (JobStep → JobStep) → Database → Database
update_step step_id f db = record db {
  job_steps = update_where (λ step. step.id == step_id) f db.job_steps;
}

abbrev pub update_job : ℕ → (AnalysisJob → AnalysisJob) → Database → Database
update_job job_id f db = record db {
  analysis_jobs = update_where (λ job. job.id == job_id) f db.analysis_jobs;
}

abbrev pub add_log : ℕ → ℕ → String → String → String → JsonDict → Database → Database
add_log job_id step_id level event_type message metadata db = record db {
  operation_logs =
      db.operation_logs
      ++ record {
        job_id = some job_id;
        job_step_id = some step_id;
        analysis_run_id = none;
        level = level;
        event_type = event_type;
        message = message;
        metadata_json = metadata;
        created_at = db.now;
      }
        ∷ [];
}

-- The row as it was before the attempt, but for the attempt's number.
abbrev pub reset_step : JobStep → JobStep
reset_step step = record step {
  status = StepStatus.pending;
  error_code = none;
  error_message = none;
  started_at = none;
  finished_at = none;
  heartbeat_at = none;
}

abbrev pub reset_job : AnalysisJob → AnalysisJob
reset_job job = record job { status = JobStatus.pending; finished_at = none }

unfoldable pub recover_step : ℕ → JobStep → Database → Database
recover_step job_id step db =
    add_log job_id step.id "warning" "stale_job_recovered" step.step_key
      (("attempt_count", int step.attempt_count) ∷ [])
      (update_job job_id reset_job (update_step step.id reset_step db))

-- The id of the recovered job. `next(...)` always finds a running step, since the join has one.
unfoldable pub recover_stale_running : (ℕ → Bool) → ℕ → Database → Option ℕ × Database
unfolding recoverable list_steps recover_step
recover_stale_running locked stale_before db =
    elim (head? (sort_by start_time (filter (recoverable locked stale_before db) db.job_steps))) [
      | none ↦ (none, db)
      | some stale ↦ elim (find? (λ step. step_running step.status) (list_steps stale.job_id db)) [
        | none ↦ (none, db)
        | some step ↦ (some stale.job_id, recover_step stale.job_id step db)
      ]
    ]
