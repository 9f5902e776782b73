-- ===== src/Jobs/Handlers/Started.antt =====
-- The start of an attempt, and the context that its handler reads then.
use hate_speech_rag_service.Common.{
  ℕ, ◌+◌, String, Bool, true, false, ◌&&◌, ◌||◌, none, some, List, [], ◌∷◌, ◌==◌, nat_Eq, string_Eq,
  ◌≡◌, refl, ap, sym, ◌∙◌, arith, subst, if◌then◌else◌, any, find?, All, update_where, Bool-cases,
  inl, inr, ==_refl, ==_iff,
}
use hate_speech_rag_service.Common.Errors.{ok}
use hate_speech_rag_service.Db.JobRows.{AnalysisJob, JobStep, step_succeeded}
use hate_speech_rag_service.Db.Results.{AnalysisRun}
use hate_speech_rag_service.Db.Database.{Database}
use hate_speech_rag_service.Jobs.Repository.{add_log}
use hate_speech_rag_service.Jobs.Orchestrator.{is_current, begin_attempt, start_step}
use hate_speech_rag_service.Analysis.Models.{StepAttemptContext}
use hate_speech_rag_service.Analysis.Services.Owner.{IsOwned}
use hate_speech_rag_service.Jobs.Handlers.{
  latest_run, step_of, context_of, context_from, has_succeeded,
}

-- The database that the handler of an attempt is given.
abbrev pub begun : AnalysisJob → JobStep → Database → Database
begun job step db =
    add_log job.id step.id "info" "step_started" step.step_key [] (start_step step db)

some_same : (a b : JobStep) → some a ≡ some b → a ≡ b
some_same a b e = ap (λ o. elim o [ none ↦ a | some x ↦ x ]) e

find?-update_where :
    (p q : JobStep → Bool) (f : JobStep → JobStep) (rows : List JobStep) (step : JobStep)
    → ((s : JobStep) → p (f s) ≡ p s)
    → find? p rows ≡ some step
    → find? p (update_where q f rows) ≡ some (if q step then f step else step)
find?-update_where p q f [] step same h = absurd (ground arith)
find?-update_where p q f (s ∷ rows) step same h =
    go (p s) (q s) refl refl h (λ k. find?-update_where p q f rows step same k)
  where
    go :
        (b c : Bool)
        → p s ≡ b
        → q s ≡ c
        → (if b then some s else find? p rows) ≡ some step
        → (find? p rows ≡ some step
            → find? p (update_where q f rows) ≡ some (if q step then f step else step))
        → find? p ((if c then f s else s) ∷ update_where q f rows)
          ≡ some (if q step then f step else step)
    go true true e k found rest =
        subst
          (λ t.
            (if p (f s) then some (f s) else find? p (update_where q f rows))
            ≡ some (if q t then f t else t))
          (some_same s step found) (ground (arith, same s, e, k))
    go true false e k found rest =
        subst
          (λ t.
            (if p s then some s else find? p (update_where q f rows))
            ≡ some (if q t then f t else t))
          (some_same s step found) (ground (arith, e, k))
    go false true e k found rest = ground (arith, same s, e, rest found)
    go false false e k found rest = ground (arith, e, rest found)

any-find? :
    (p q : JobStep → Bool) (rows : List JobStep) (step : JobStep)
    → find? p rows ≡ some step
    → q step ≡ true
    → any q rows ≡ true
any-find? p q [] step h k = absurd (ground arith)
any-find? p q (s ∷ rows) step h k = go (p s) h (λ e. any-find? p q rows step e k)
  where
    go :
        (b : Bool)
        → (if b then some s else find? p rows) ≡ some step
        → (find? p rows ≡ some step → any q rows ≡ true)
        → (q s || any q rows) ≡ true
    go true found rest = ground (arith, ap q (some_same s step found), k)
    go false found rest = ground (arith, rest found)

module _ (step : JobStep) (now : ℕ) where
  abbrev is_row : JobStep → Bool
  is_row s = s.id == step.id

  abbrev started : List JobStep → List JobStep
  started = update_where is_row (begin_attempt now step)

  -- The rows that the new attempt owns are those of the step.
  started-is_current :
      (s : JobStep)
      → is_current step.id
          (step.attempt_count + 1)
          (if is_row s then begin_attempt now step s else s)
        ≡ is_row s
  started-is_current s = elim (Bool-cases (s.id == step.id)) [
    | inl e ↦ ground (arith, e, ==_refl (step.attempt_count + 1))
    | inr e ↦ ground (arith, e)
  ]

  any-started :
      (rows : List JobStep)
      → any (is_current step.id (step.attempt_count + 1)) (started rows) ≡ any is_row rows
  any-started [] = refl
  any-started (s ∷ rows) =
      ap (λ b. b || any (is_current step.id (step.attempt_count + 1)) (started rows))
        (started-is_current s)
      ∙ ap (λ b. is_row s || b) (any-started rows)

  All-started :
      (rows : List JobStep)
      → All
          (λ s. s.id ≡ step.id → is_current step.id (step.attempt_count + 1) s ≡ true)
          (started rows)
  All-started [] = tt
  All-started (s ∷ rows) = (owned, All-started rows)
    where
      same_id : (b : Bool) → (if b then begin_attempt now step s else s).id ≡ s.id
      same_id true = refl
      same_id false = refl

      owned :
          (if is_row s then begin_attempt now step s else s).id ≡ step.id
          → is_current step.id
              (step.attempt_count + 1)
              (if is_row s then begin_attempt now step s else s)
            ≡ true
      owned e = started-is_current s ∙ (==_iff s.id step.id).1 (sym (same_id (is_row s)) ∙ e)

abbrev pub context_at : AnalysisJob → JobStep → AnalysisRun → StepAttemptContext
context_at job step run = record {
  job_id = job.id;
  step_id = step.id;
  step_key = step.step_key;
  run_id = run.id;
  expected_attempt = step.attempt_count + 1;
}

pub begun-context_of :
    (job : AnalysisJob) (step : JobStep) (run : AnalysisRun) (key : String) (db : Database)
    → step_of job.id key db ≡ some step
    → latest_run job.id db ≡ some run
    → context_of job key (begun job step db) ≡ ok (context_at job step run)
unfolding context_of start_step latest_run step_of
begun-context_of job step run key db found ran =
    let updated =
      find?-update_where (λ s. s.job_id == job.id && s.step_key == key) (λ s. s.id == step.id)
        (begin_attempt db.now step) db.job_steps step (λ s. refl) found
      ∙ ap (λ b. some (if b then begin_attempt db.now step step else step)) (==_refl step.id) in
    ap (λ o. context_from job o (step_of job.id key (begun job step db))) ran
    ∙ ap (context_from job (some run)) updated

pub begun-IsOwned :
    (job : AnalysisJob) (step : JobStep) (run : AnalysisRun) (key : String) (db : Database)
    → step_of job.id key db ≡ some step
    → IsOwned (context_at job step run) (begun job step db)
unfolding start_step step_of
begun-IsOwned job step run key db found = (
  All-started step db.now db.job_steps,
  any-started step db.now db.job_steps
      ∙ any-find? (λ s. s.job_id == job.id && s.step_key == key) (λ s. s.id == step.id) db.job_steps
          step found (==_refl step.id),
)

-- A step that is not the started one is as before.
pub begun-has_succeeded :
    (job : AnalysisJob) (step other : JobStep) (key : String) (db : Database)
    → step_of job.id key db ≡ some other
    → step_succeeded other.status ≡ true
    → (other.id == step.id) ≡ false
    → has_succeeded (step_of job.id key (begun job step db)) ≡ true
unfolding start_step step_of
begun-has_succeeded job step other key db found succeeded apart =
    ap has_succeeded (
      find?-update_where (λ s. s.job_id == job.id && s.step_key == key) (λ s. s.id == step.id)
        (begin_attempt db.now step) db.job_steps other (λ s. refl) found
      ∙ ap (λ b. some (if b then begin_attempt db.now step other else other)) apart)
    ∙ succeeded
