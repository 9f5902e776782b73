-- ===== src/Analysis/ResultStore/Counters.antt =====
-- The counters of a step against the results that are stored for its run.
use hate_speech_rag_service.Common.{
  ℕ, ◌+◌, Bool, true, false, some, List, [], ◌∷◌, ◌++◌, ◌≡◌, refl, ◌==◌, nat_Eq, if◌then◌else◌, any,
  All, update_where, Bool-cases, inl, inr, arith, nat_eq_iff, subst, ◌⊎◌,
}
use hate_speech_rag_service.Db.JobRows.{JobStep}
use hate_speech_rag_service.Db.Results.{ResultStatus, AnalysisResult, is_succeeded, is_failed}
use hate_speech_rag_service.Db.Database.{Database}
use hate_speech_rag_service.Jobs.Orchestrator.{is_current}
use hate_speech_rag_service.Analysis.Models.{AnalysisOutcome, StepAttemptContext}
use hate_speech_rag_service.Analysis.ResultStore.{
  ResultKind, comment, script, results, is_result_of, count_outcome, new_result, insert_result,
  persist, count_status, reconciled, Progress, reconcile, Holds,
}

-- The row counts exactly the results of the run that are stored.
abbrev pub Counts : ℕ → List AnalysisResult → JobStep → Type 0
Counts run_id rows step =
    (step.items_succeeded ≡ count_status run_id is_succeeded rows)
    × (step.items_failed ≡ count_status run_id is_failed rows)
    × (step.items_completed ≡ step.items_succeeded + step.items_failed)

abbrev pub IsCounted : StepAttemptContext → ResultKind → Database → Type 0
IsCounted context kind db =
    All (λ step. step.id ≡ context.step_id → Counts context.run_id (results kind db) step)
      db.job_steps

count_status_snoc :
    (run_id : ℕ) (status : ResultStatus → Bool) (rows : List AnalysisResult) (row : AnalysisResult)
    → row.analysis_run_id ≡ run_id
    → count_status run_id status (rows ++ row ∷ [])
      ≡ count_status run_id status rows + (if status row.status then 1 else 0)
count_status_snoc run_id status [] row h = ground (arith, nat_eq_iff row.analysis_run_id run_id)
count_status_snoc run_id status (r ∷ rows) row h =
    ground (arith, count_status_snoc run_id status rows row h)

module _ (context : StepAttemptContext) (rows : List AnalysisResult) (new : AnalysisResult)
    (of_run : new.analysis_run_id ≡ context.run_id) (now : ℕ) where
  count_row :
      (step : JobStep)
      → Counts context.run_id rows step
      → Counts context.run_id (rows ++ new ∷ []) (count_outcome new.status now step)
  count_row step c = counted new.status refl
    where
      snoc :
          (status : ResultStatus → Bool)
          → count_status context.run_id status (rows ++ new ∷ [])
            ≡ count_status context.run_id status rows + (if status new.status then 1 else 0)
      snoc status = count_status_snoc context.run_id status rows new of_run

      counted :
          (s : ResultStatus)
          → new.status ≡ s
          → Counts context.run_id (rows ++ new ∷ []) (count_outcome s now step)
      counted ResultStatus.succeeded e = ground (arith, snoc is_succeeded, snoc is_failed)
      counted ResultStatus.failed e = ground (arith, snoc is_succeeded, snoc is_failed)

  count_rows :
      (steps : List JobStep)
      → All (λ s. s.id ≡ context.step_id → Counts context.run_id rows s) steps
      → All
          (λ s. s.id ≡ context.step_id → Counts context.run_id (rows ++ new ∷ []) s)
          (update_where (λ s. s.id == context.step_id) (count_outcome new.status now) steps)
  count_rows [] h = tt
  count_rows (s ∷ steps) h = (counted (Bool-cases (s.id == context.step_id)), count_rows steps h.1)
    where
      counted :
          ((s.id == context.step_id) ≡ true) ⊎ ((s.id == context.step_id) ≡ false)
          → (if s.id == context.step_id then count_outcome new.status now s else s).id
            ≡ context.step_id
          → Counts context.run_id
              (rows ++ new ∷ [])
              (if s.id == context.step_id then count_outcome new.status now s else s)
      counted (inl e) = rw e (λ _. count_row s (h.0 ((nat_eq_iff s.id context.step_id).0 e)))
      counted (inr e) = rw e (λ same. cc ((nat_eq_iff s.id context.step_id).1 same))

beat_rows :
    (context : StepAttemptContext) (rows : List AnalysisResult) (now : ℕ) (steps : List JobStep)
    → All (λ s. s.id ≡ context.step_id → Counts context.run_id rows s) steps
    → All
        (λ s. s.id ≡ context.step_id → Counts context.run_id rows s)
        (update_where
          (is_current context.step_id context.expected_attempt)
          (λ s. record s { heartbeat_at = some now })
          steps)
beat_rows context rows now [] h = tt
beat_rows context rows now (s ∷ steps) h = (
  λ same. elim (Bool-cases (is_current context.step_id context.expected_attempt s)) [
    | inl e ↦ rw e (h.0 (ground arith))
    | inr e ↦ rw e (h.0 (ground arith))
  ],
  beat_rows context rows now steps h.1,
)

beaten : StepAttemptContext → Database → Database
beaten context db = record db {
  job_steps =
      update_where (is_current context.step_id context.expected_attempt)
        (λ row. record row { heartbeat_at = some db.now }) db.job_steps;
}

beaten-IsCounted :
    (context : StepAttemptContext) (kind : ResultKind) (db : Database)
    → IsCounted context kind db
    → IsCounted context kind (beaten context db)
unfolding beaten
beaten-IsCounted context comment db c =
    beat_rows context db.comment_analysis_results db.now db.job_steps c
beaten-IsCounted context script db c =
    beat_rows context db.script_analysis_results db.now db.job_steps c

insert-IsCounted :
    (context : StepAttemptContext) (kind : ResultKind) (outcome : AnalysisOutcome) (db : Database)
    → IsCounted context kind db
    → IsCounted context kind (insert_result context kind outcome db).1
unfolding insert_result
insert-IsCounted context comment outcome db c =
    elim (Bool-cases
      (any (is_result_of context.run_id outcome.source_id) db.comment_analysis_results)) [
        | inl e ↦ rw e c
        | inr e ↦ rw e (
            count_rows context db.comment_analysis_results (new_result context outcome db) refl
              db.now db.job_steps c)
      ]
insert-IsCounted context script outcome db c =
    elim (Bool-cases
      (any (is_result_of context.run_id outcome.source_id) db.script_analysis_results)) [
        | inl e ↦ rw e c
        | inr e ↦ rw e (
            count_rows context db.script_analysis_results (new_result context outcome db) refl
              db.now db.job_steps c)
      ]

persist-Holds :
    (context : StepAttemptContext) (kind : ResultKind) (outcome : AnalysisOutcome) (db : Database)
    → IsCounted context kind db
    → Holds (IsCounted context kind) (persist context kind outcome db)
unfolding persist beaten
persist-Holds context kind outcome db c =
    elim (Bool-cases (any (is_current context.step_id context.expected_attempt) db.job_steps)) [
      | inl e ↦
          rw (e, Holds)
            (insert-IsCounted context kind outcome (beaten context db)
              (beaten-IsCounted context kind db c))
      | inr e ↦ rw (e, Holds) tt
    ]

-- Where the counters of the step agree with the stored results of its run, they still do after a
-- result is persisted, whether it was new or was there already.
pub persist-IsCounted :
    (context : StepAttemptContext) (kind : ResultKind) (outcome : AnalysisOutcome)
    (db db' : Database) (inserted : Bool)
    → IsCounted context kind db
    → persist context kind outcome db ≡ some (inserted, db')
    → IsCounted context kind db'
persist-IsCounted context kind outcome db db' inserted c e =
    subst (Holds (IsCounted context kind)) e (persist-Holds context kind outcome db c)

module _ (context : StepAttemptContext) (rows : List AnalysisResult) (total now : ℕ) where
  reconciled_rows :
      (steps : List JobStep)
      → All
          (λ s.
            s.id ≡ context.step_id → is_current context.step_id context.expected_attempt s ≡ true)
          steps
      → All
          (λ s. s.id ≡ context.step_id → Counts context.run_id rows s)
          (update_where
            (is_current context.step_id context.expected_attempt)
            (reconciled total
              (count_status context.run_id is_succeeded rows)
              (count_status context.run_id is_failed rows)
              now)
            steps)
  reconciled_rows [] h = tt
  reconciled_rows (s ∷ steps) h = (
    λ same. elim (Bool-cases (is_current context.step_id context.expected_attempt s)) [
      | inl e ↦ rw e (refl, refl, refl)
      | inr e ↦ cc (h.0 (ground (arith, e)))
    ],
    reconciled_rows steps h.1,
  )

reconcile-Holds :
    (context : StepAttemptContext) (kind : ResultKind) (total : ℕ) (db : Database)
    → All
        (λ s. s.id ≡ context.step_id → is_current context.step_id context.expected_attempt s ≡ true)
        db.job_steps
    → Holds (IsCounted context kind) (reconcile context kind total db)
unfolding reconcile
reconcile-Holds context comment total db c =
    elim (Bool-cases (any (is_current context.step_id context.expected_attempt) db.job_steps)) [
      | inl e ↦
          rw (e, Holds)
            (reconciled_rows context db.comment_analysis_results total db.now db.job_steps c)
      | inr e ↦ rw (e, Holds) tt
    ]
reconcile-Holds context script total db c =
    elim (Bool-cases (any (is_current context.step_id context.expected_attempt) db.job_steps)) [
      | inl e ↦
          rw (e, Holds)
            (reconciled_rows context db.script_analysis_results total db.now db.job_steps c)
      | inr e ↦ rw (e, Holds) tt
    ]

pub reconcile-IsCounted :
    (context : StepAttemptContext) (kind : ResultKind) (total : ℕ) (db db' : Database)
    (progress : Progress)
    → All
        (λ s. s.id ≡ context.step_id → is_current context.step_id context.expected_attempt s ≡ true)
        db.job_steps
    → reconcile context kind total db ≡ some (progress, db')
    → IsCounted context kind db'
reconcile-IsCounted context kind total db db' progress c e =
    subst (Holds (IsCounted context kind)) e (reconcile-Holds context kind total db c)
