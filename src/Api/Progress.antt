-- ===== src/Api/Progress.antt =====
-- `_job_payload`, `_step_payload` and `_item_progress` of app/api/jobs.py. `round(a / b * 100)` is the
-- exact half-even rounding of the fraction, which the source takes of a float.
pub mod Bounds
use Prim.Native.String
use hate_speech_rag_service.Common.{
  ℕ, zero, suc, ◌+◌, ◌-◌, ◌*◌, ◌/◌, ◌%◌, String, Bool, true, false, not, ◌&&◌, ◌||◌, Option, none,
  some, List, [], ◌∷◌, ◌==◌, nat_Eq, string_Eq, if◌then◌else◌, ltb, min, any, find?, count, length,
  map, or_else, is_some,
}
use hate_speech_rag_service.Common.Json.{Json, JsonDict, int, bool}
use hate_speech_rag_service.Db.JobRows.{
  JobStatus, StepStatus, step_pending, step_running, step_succeeded, step_failed, AnalysisJob,
  JobStep,
}

-- The whole part, and the remainder that decides on the rounding.
abbrev pub round_up : ℕ → ℕ → ℕ → ℕ
round_up q r b =
    if ltb (2 * r) b then q else if ltb b (2 * r) then suc q else if q % 2 == 0 then q else suc q

-- Where `b` is 0 the source raises ZeroDivisionError.
unfoldable pub round_percent : ℕ → ℕ → Option ℕ
round_percent a zero = none
round_percent a (suc b) = some (round_up (a * 100 / suc b) (a * 100 % suc b) (suc b))

pub record ItemProgress : Type 0 where
  pub total : ℕ
  pub completed : ℕ
  pub succeeded : ℕ
  pub failed : ℕ
  pub percent : ℕ

abbrev pub percent_or : ℕ → Option ℕ → ℕ
percent_or other none = other
percent_or other (some p) = p

-- With a total of 0 the percentage is 100.
unfoldable pub item_progress : JobStep → Option ItemProgress
unfolding round_percent
item_progress step = elim step.items_total [
  | none ↦ none
  | some total ↦
      let completed = if total == 0 then step.items_completed else min step.items_completed total in
      some (record {
        total = total;
        completed = completed;
        succeeded = step.items_succeeded;
        failed = step.items_failed;
        percent = percent_or 100 (round_percent completed total);
      })
]

pub record StepError : Type 0 where
  pub code : Option String
  pub message : Option String

pub record StepPayload : Type 0 where
  pub step_key : String
  pub status : StepStatus
  pub attempt_count : ℕ
  pub started_at : Option ℕ
  pub finished_at : Option ℕ
  pub metrics : JsonDict
  pub item_progress_of : Option ItemProgress
  pub step_error : Option StepError

abbrev pub is_text : Option String → Bool
is_text none = false
is_text (some s) = not (s == "")

unfoldable pub step_payload : JobStep → StepPayload
unfolding item_progress
step_payload step = record {
  step_key = step.step_key;
  status = step.status;
  attempt_count = step.attempt_count;
  started_at = step.started_at;
  finished_at = step.finished_at;
  metrics = step.metrics;
  item_progress_of = item_progress step;
  step_error =
      if is_text step.error_code || is_text step.error_message
      then some (record { code = step.error_code; message = step.error_message })
      else none;
}

-- `text.endswith(suffix)`
unfoldable pub ends_with : String → String → Bool
ends_with suffix String.[] = suffix == ""
ends_with suffix (String.◌∷◌ c s) = String.◌∷◌ c s == suffix || ends_with suffix s

abbrev pub is_summary_key : String → Bool
is_summary_key key = ends_with "collected" key || ends_with "analyzed" key || ends_with "items" key

-- An `int` of Python; a `bool` is one too.
abbrev pub int_of : Json → Option ℕ
int_of (int n) = some n
int_of (bool b) = some (if b then 1 else 0)
int_of _ = none

-- `summary[key] = summary.get(key, 0) + value`
unfoldable pub add_to : String → ℕ → List (String × ℕ) → List (String × ℕ)
add_to key value [] = (key, value) ∷ []
add_to key value ((k, n) ∷ rest) =
    let later = add_to key value rest in if k == key then (k, n + value) ∷ rest else (k, n) ∷ later

unfoldable pub add_metrics : JsonDict → List (String × ℕ) → List (String × ℕ)
unfolding ends_with add_to
add_metrics [] summary = summary
add_metrics ((key, value) ∷ rest) summary = elim (int_of value) [
  | none ↦ add_metrics rest summary
  | some n ↦ add_metrics rest (if is_summary_key key then add_to key n summary else summary)
]

unfoldable pub metric_summary : List JobStep → List (String × ℕ) → List (String × ℕ)
unfolding add_metrics
metric_summary [] summary = summary
metric_summary (step ∷ rest) summary = metric_summary rest (add_metrics step.metrics summary)

abbrev pub is_settled : JobStep → Bool
is_settled step = not (step_pending step.status) && not (step_running step.status)

abbrev pub key_of : Option JobStep → Option String
key_of none = none
key_of (some step) = some step.step_key

-- The first running step, or else the first pending one.
unfoldable pub current_step : List JobStep → Option String
current_step steps =
    or_else (key_of (find? (λ step. step_running step.status) steps))
      (key_of (find? (λ step. step_pending step.status) steps))

pub record JobPayload : Type 0 where
  pub job_id : ℕ
  pub youtube_video_id : String
  pub status : JobStatus
  pub percent : ℕ
  pub current : Option String
  pub steps : List StepPayload
  pub summary : List (String × ℕ)
  pub report_id : Option ℕ
  pub created_at : ℕ
  pub started_at : Option ℕ
  pub finished_at : Option ℕ

-- The links are made of the report's id.
-- The payload, once the percentage is known.
unfoldable pub payload_of : AnalysisJob → List JobStep → Option ℕ → Option ℕ → Option JobPayload
unfolding step_payload metric_summary current_step
payload_of job steps report_id none = none
payload_of job steps report_id (some percent) = some (record {
  job_id = job.id;
  youtube_video_id = job.youtube_video_id;
  status = job.status;
  percent = percent;
  current = current_step steps;
  steps = map step_payload steps;
  summary = metric_summary steps [];
  report_id = report_id;
  created_at = job.created_at;
  started_at = job.started_at;
  finished_at = job.finished_at;
})

unfoldable pub job_payload : AnalysisJob → List JobStep → Option ℕ → Option JobPayload
unfolding round_percent payload_of
job_payload job steps report_id =
    payload_of job steps report_id (round_percent (count is_settled steps) (length steps))
