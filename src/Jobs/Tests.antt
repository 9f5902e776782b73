-- ===== src/Jobs/Tests.antt =====
-- Small databases, what the job pipeline does on them, and the theorems at concrete inputs.
use hate_speech_rag_service.Common.{
  true, false, nat_Eq, some, none, List, [], ◌∷◌, ◌≡◌, refl, All, inl, find?, arith,
}
use hate_speech_rag_service.Db.JobRows.{JobStatus, StepStatus, AnalysisJob, JobStep, step_pending}
use hate_speech_rag_service.Db.Database.{Database, empty}
use hate_speech_rag_service.Jobs.Repository.{new_job, new_step, list_steps}
use hate_speech_rag_service.Jobs.Orchestrator.{
  returned, HandlerRun, StepResult, conclude, is_finalize, finalize, final_status,
}
use hate_speech_rag_service.Jobs.Orchestrator.Attempts.{Event, start, recover, finish, act_all}
use hate_speech_rag_service.Jobs.Orchestrator.Verdict.{RequiredFailure, finalize_no_pending}

abbrev job : AnalysisJob
job = new_job "dQw4w9WgXcQ" "dQw4w9WgXcQ" none [] empty

abbrev succeeded_result : StepResult
succeeded_result = record {
  status = StepStatus.succeeded;
  metrics = [];
  error_code = none;
  error_message = none;
}

-- The first attempt of step 3 was recovered, and a second worker runs the second attempt.
abbrev second_attempt : JobStep
second_attempt = record (new_step 3 1 "collect_comments" false) {
  status = StepStatus.running;
  attempt_count = 2;
}

abbrev failed_metadata : JobStep
failed_metadata = record (new_step 2 1 "collect_metadata" true) {
  status = StepStatus.failed;
  attempt_count = 1;
}

abbrev last_step : JobStep
last_step = new_step 11 1 "finalize_job" true

abbrev small : Database
small = record empty {
  analysis_jobs = record job { status = JobStatus.running } ∷ [];
  job_steps = failed_metadata ∷ second_attempt ∷ last_step ∷ [];
}

abbrev late_run : HandlerRun
late_run = record { outcome = returned succeeded_result; committed = small; working = small }

conclude_current : (conclude job second_attempt 2 late_run).0 ≡ some true
unfolding conclude
conclude_current = refl

abbrev takeover : List Event
takeover =
    start 1
    ∷ recover 9
    ∷ start 10
    ∷ finish 11 1 succeeded_result
    ∷ finish 12 2 succeeded_result
    ∷ []

takeover_accepts : (act_all takeover (record { row = last_step; accepted = [] })).accepted ≡ 2 ∷ []
unfolding act_all
takeover_accepts = refl

small_verdict : final_status 11 small.job_steps ≡ JobStatus.failed
unfolding final_status
small_verdict = refl

abbrev three_steps : List JobStep
three_steps = failed_metadata ∷ second_attempt ∷ last_step ∷ []

found_last : find? is_finalize (list_steps 1 small) ≡ some last_step
unfolding list_steps
found_last = refl

failed_required : RequiredFailure 11 (list_steps 1 small)
unfolding list_steps
failed_required = inl (refl, refl, omega arith)

finalize_no_pending_example :
    (db' : Database) × (finalize 1 small ≡ some db')
    × All (λ s. s.job_id ≡ 1 → step_pending s.status ≡ false) db'.job_steps
finalize_no_pending_example = finalize_no_pending 1 small last_step found_last failed_required

abbrev waiting : Database
waiting = record empty { analysis_jobs = job ∷ [] }
