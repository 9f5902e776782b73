-- ===== src/Api/Progress/Bounds.antt =====
-- The percentages of a job and of a step.
use hate_speech_rag_service.Common.{◌≤◌, Option, none, some, List, ◌≡◌, nat_Eq, count, length, All}
use hate_speech_rag_service.Db.JobRows.{JobStep}
use hate_speech_rag_service.Api.Progress.{ItemProgress, JobPayload, is_settled}

abbrev pub IsWithin : Option ItemProgress → Type 0
IsWithin none = Unit {0}
IsWithin (some q) = q.percent ≤ 100

-- The percentages of a payload are at most 100, and that of a job is 100 once its steps are settled.
pub record IsShown (steps : List JobStep) (p : JobPayload) : Type 0 where
  pub within : p.percent ≤ 100
  pub items : All (λ s. IsWithin s.item_progress_of) p.steps
  pub complete : count is_settled steps ≡ length steps → p.percent ≡ 100

abbrev pub Shows : List JobStep → Option JobPayload → Type 0
Shows steps none = ⊥
Shows steps (some p) = IsShown steps p
