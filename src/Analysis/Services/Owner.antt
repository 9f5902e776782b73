-- ===== src/Analysis/Services/Owner.antt =====
-- What the owner of a step may write, and that it stays the owner.
use hate_speech_rag_service.Common.{
  ℕ, Bool, true, false, ◌||◌, some, List, [], ◌∷◌, ◌==◌, nat_Eq, ◌≡◌, refl, ap, sym, ◌∙◌,
  if◌then◌else◌, any, All, update_where, Bool-cases, inl, inr,
}
use hate_speech_rag_service.Db.JobRows.{JobStep}
use hate_speech_rag_service.Db.Results.{ResultStatus}
use hate_speech_rag_service.Db.Database.{Database}
use hate_speech_rag_service.Jobs.Orchestrator.{is_current}
use hate_speech_rag_service.Analysis.Models.{AnalysisOutcome, StepAttemptContext}
use hate_speech_rag_service.Analysis.ResultStore.{
  comment, is_result_of, persist, insert_result, fence, count_outcome,
}

-- The rows with the step's id run the expected attempt, and there is one.
abbrev pub OwnedSteps : StepAttemptContext → List JobStep → Type 0
OwnedSteps context steps =
    All (λ s. s.id ≡ context.step_id → is_current context.step_id context.expected_attempt s ≡ true)
      steps
    × (any (is_current context.step_id context.expected_attempt) steps ≡ true)

abbrev pub IsOwned : StepAttemptContext → Database → Type 0
IsOwned context db = OwnedSteps context db.job_steps

owned_rows :
    (context : StepAttemptContext) (p : JobStep → Bool) (f : JobStep → JobStep)
    (steps : List JobStep)
    → ((s : JobStep) → (f s).id ≡ s.id)
    → ((s : JobStep)
        → is_current context.step_id context.expected_attempt (f s)
          ≡ is_current context.step_id context.expected_attempt s)
    → All
        (λ s. s.id ≡ context.step_id → is_current context.step_id context.expected_attempt s ≡ true)
        steps
    → All
        (λ s. s.id ≡ context.step_id → is_current context.step_id context.expected_attempt s ≡ true)
        (update_where p f steps)
owned_rows context p f [] same_id same h = tt
owned_rows context p f (s ∷ steps) same_id same h =
    (go (p s), owned_rows context p f steps same_id same h.1)
  where
    go :
        (b : Bool)
        → (if b then f s else s).id ≡ context.step_id
        → is_current context.step_id context.expected_attempt (if b then f s else s) ≡ true
    go true e = same s ∙ h.0 (sym (same_id s) ∙ e)
    go false e = h.0 e

any-update_where :
    (context : StepAttemptContext) (p : JobStep → Bool) (f : JobStep → JobStep)
    (steps : List JobStep)
    → ((s : JobStep)
        → is_current context.step_id context.expected_attempt (f s)
          ≡ is_current context.step_id context.expected_attempt s)
    → any (is_current context.step_id context.expected_attempt) (update_where p f steps)
      ≡ any (is_current context.step_id context.expected_attempt) steps
any-update_where context p f [] same = refl
any-update_where context p f (s ∷ steps) same =
    ap
      (λ b. b || any (is_current context.step_id context.expected_attempt) (update_where p f steps))
      (go (p s))
    ∙ ap (λ b. is_current context.step_id context.expected_attempt s || b)
        (any-update_where context p f steps same)
  where
    go :
        (b : Bool)
        → is_current context.step_id context.expected_attempt (if b then f s else s)
          ≡ is_current context.step_id context.expected_attempt s
    go true = same s
    go false = refl

pub update-IsOwned :
    (context : StepAttemptContext) (p : JobStep → Bool) (f : JobStep → JobStep)
    (steps : List JobStep)
    → ((s : JobStep) → (f s).id ≡ s.id)
    → ((s : JobStep)
        → is_current context.step_id context.expected_attempt (f s)
          ≡ is_current context.step_id context.expected_attempt s)
    → OwnedSteps context steps
    → OwnedSteps context (update_where p f steps)
update-IsOwned context p f steps same_id same h =
    (owned_rows context p f steps same_id same h.0, any-update_where context p f steps same ∙ h.1)

count_outcome-is_current :
    (context : StepAttemptContext) (status : ResultStatus) (now : ℕ) (s : JobStep)
    → is_current context.step_id context.expected_attempt (count_outcome status now s)
      ≡ is_current context.step_id context.expected_attempt s
count_outcome-is_current context ResultStatus.succeeded now s = refl
count_outcome-is_current context ResultStatus.failed now s = refl

count_outcome-id :
    (status : ResultStatus) (now : ℕ) (s : JobStep) → (count_outcome status now s).id ≡ s.id
count_outcome-id ResultStatus.succeeded now s = refl
count_outcome-id ResultStatus.failed now s = refl

abbrev pub beat : StepAttemptContext → Database → Database
beat context db = record db {
  job_steps =
      update_where (is_current context.step_id context.expected_attempt)
        (λ row. record row { heartbeat_at = some db.now }) db.job_steps;
}

pub beat-IsOwned :
    (context : StepAttemptContext) (db : Database)
    → IsOwned context db
    → IsOwned context (beat context db)
beat-IsOwned context db h =
    update-IsOwned context (is_current context.step_id context.expected_attempt)
      (λ row. record row { heartbeat_at = some db.now }) db.job_steps (λ s. refl) (λ s. refl) h

pub insert_result-IsOwned :
    (context : StepAttemptContext) (o : AnalysisOutcome) (db : Database)
    → IsOwned context db
    → IsOwned context (insert_result context comment o db).1
unfolding insert_result
insert_result-IsOwned context o db h =
    elim (Bool-cases (any (is_result_of context.run_id o.source_id) db.comment_analysis_results)) [
      | inl e ↦ rw e h
      | inr e ↦ rw e (
          update-IsOwned context (λ row. row.id == context.step_id) (count_outcome o.status db.now)
            db.job_steps (count_outcome-id o.status db.now)
            (count_outcome-is_current context o.status db.now) h)
    ]

-- An outcome is stored by the owner of the step.
pub owner-persist :
    (context : StepAttemptContext) (o : AnalysisOutcome) (db : Database)
    → IsOwned context db
    → persist context comment o db ≡ some (insert_result context comment o (beat context db))
unfolding persist fence
owner-persist context o db h = rw (h.1, persist, fence) refl

pub owner-fence :
    (context : StepAttemptContext) (db : Database)
    → IsOwned context db
    → fence context db ≡ some (beat context db)
unfolding fence
owner-fence context db h = rw (h.1, fence) refl
