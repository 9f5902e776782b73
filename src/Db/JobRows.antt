-- ===== src/Db/JobRows.antt =====
-- The job tables of app/db/models.py, and the states that the code writes into their status columns.
use hate_speech_rag_service.Common.{ℕ, Bool, true, false, Option, String}
use hate_speech_rag_service.Common.Json.{JsonDict}

pub data JobStatus : Type 0 where
  pending running succeeded partial_success failed : JobStatus

pub data StepStatus : Type 0 where
  pending running succeeded failed skipped : StepStatus

abbrev pub job_pending : JobStatus → Bool
job_pending JobStatus.pending = true
job_pending _ = false

abbrev pub job_running : JobStatus → Bool
job_running JobStatus.running = true
job_running _ = false

abbrev pub step_pending : StepStatus → Bool
step_pending StepStatus.pending = true
step_pending _ = false

abbrev pub step_running : StepStatus → Bool
step_running StepStatus.running = true
step_running _ = false

abbrev pub step_succeeded : StepStatus → Bool
step_succeeded StepStatus.succeeded = true
step_succeeded _ = false

abbrev pub step_failed : StepStatus → Bool
step_failed StepStatus.failed = true
step_failed _ = false

-- `step.status in {"failed", "skipped"}`
abbrev pub step_incomplete : StepStatus → Bool
step_incomplete StepStatus.failed = true
step_incomplete StepStatus.skipped = true
step_incomplete _ = false

pub record AnalysisJob : Type 0 where
  pub id : ℕ
  pub user_id : Option ℕ
  pub input_value : String
  pub youtube_video_id : String
  pub status : JobStatus
  pub requested_by : Option String
  pub request_options : JsonDict
  pub error_summary : Option JsonDict
  pub created_at : ℕ
  pub started_at : Option ℕ
  pub finished_at : Option ℕ

pub record JobStep : Type 0 where
  pub id : ℕ
  pub job_id : ℕ
  pub step_key : String
  pub status : StepStatus
  pub attempt_count : ℕ
  pub is_required : Bool
  pub error_code : Option String
  pub error_message : Option String
  pub metrics : JsonDict
  pub items_total : Option ℕ
  pub items_completed : ℕ
  pub items_succeeded : ℕ
  pub items_failed : ℕ
  pub heartbeat_at : Option ℕ
  pub started_at : Option ℕ
  pub finished_at : Option ℕ

pub record OperationLog : Type 0 where
  pub job_id : Option ℕ
  pub job_step_id : Option ℕ
  pub analysis_run_id : Option ℕ
  pub level : String
  pub event_type : String
  pub message : String
  pub metadata_json : JsonDict
  pub created_at : ℕ

pub record ApiQuotaEvent : Type 0 where
  pub job_id : Option ℕ
  pub provider : String
  pub operation : String
  pub quota_cost : Option ℕ
  pub status : String
  pub error_code : Option String
  pub metadata_json : JsonDict
  pub created_at : ℕ
