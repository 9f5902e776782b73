-- ===== src/Jobs/Orchestrator/Fencing.antt =====
-- What `_run_step` writes when it concludes an attempt, for every way in which a handler can end.
use hate_speech_rag_service.Common.{
  ℕ, not, List, [], ◌∷◌, ◌≡◌, refl, ◌==◌, nat_Eq, if◌then◌else◌, filter, update_where, arith,
}
use hate_speech_rag_service.Db.JobRows.{JobStep}
use hate_speech_rag_service.Db.Database.{Database}
use hate_speech_rag_service.Jobs.Orchestrator.{HandlerRun, is_current, rolls_back}

-- The database that the conclusion writes to: the session's, or after an exception the committed one.
abbrev pub base : HandlerRun → Database
base run = if rolls_back run.outcome then run.committed else run.working

pub update_where_others :
    (step_id expected : ℕ) (f : JobStep → JobStep) (steps : List JobStep)
    → ((step : JobStep) → (f step).id ≡ step.id)
    → filter (λ step. not (step.id == step_id)) (update_where (is_current step_id expected) f steps)
      ≡ filter (λ step. not (step.id == step_id)) steps
update_where_others step_id expected f [] h = refl
update_where_others step_id expected f (s ∷ steps) h =
    ground (arith, h s, update_where_others step_id expected f steps h)
