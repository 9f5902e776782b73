-- ===== src/Jobs/Orchestrator/Attempts.antt =====
-- One step's row under any interleaving of workers: starts, results, releases, heartbeats and
-- recoveries, each as the guarded update that the code makes, and retries by an administrator.
use hate_speech_rag_service.Common.{
  ℕ, ◌+◌, ◌<◌, false, some, List, [], ◌∷◌, ◌≡◌, nat_Eq, if◌then◌else◌, All,
}
use hate_speech_rag_service.Db.JobRows.{JobStep, step_running, step_pending}
use hate_speech_rag_service.Jobs.Repository.{reset_step}
use hate_speech_rag_service.Api.Admin.{retried_step}
use hate_speech_rag_service.Jobs.Orchestrator.{StepResult, is_current, apply_result, begin_attempt}

-- `expected` is the attempt for which a worker acts.
pub data Event : Type 0 where
  start recover : (now : ℕ) → Event
  finish : (now expected : ℕ) → StepResult → Event
  release : (now expected : ℕ) → Event
  beat : (now expected : ℕ) → Event
  retry : Event

-- The row, and the attempts whose results it took, the last one first.
pub record History : Type 0 where
  pub row : JobStep
  pub accepted : List ℕ

unfoldable pub act : Event → History → History
act (start now) h =
    if step_pending h.row.status then record h { row = begin_attempt now h.row h.row } else h
act (recover now) h = if step_running h.row.status then record h { row = reset_step h.row } else h
act (finish now expected result) h =
    if is_current h.row.id expected h.row
    then record { row = apply_result now result h.row; accepted = expected ∷ h.accepted }
    else h
act (release now expected) h =
    if is_current h.row.id expected h.row then record h { row = reset_step h.row } else h
act (beat now expected) h =
    if is_current h.row.id expected h.row
    then record h { row = record h.row { heartbeat_at = some now } }
    else h
act retry h = record h { row = retried_step h.row }

unfoldable pub act_all : List Event → History → History
unfolding act
act_all [] h = h
act_all (e ∷ es) h = act_all es (act e h)

abbrev pub IsDescending : List ℕ → Type 0
IsDescending [] = Unit
IsDescending (n ∷ rest) = All (λ m. m < n) rest × IsDescending rest

-- Where the attempt runs, its own result is still to come.
abbrev bound : JobStep → ℕ
bound row = if step_running row.status then row.attempt_count else row.attempt_count + 1

record IsOrdered (h : History) : Type 0 where
  below : All (λ m. m < bound h.row) h.accepted
  descending : IsDescending h.accepted

-- A result that a handler returns does not say that the step still runs.
abbrev pub Settles : Event → Type 0
Settles (finish now expected result) = step_running result.status ≡ false
Settles _ = Unit
