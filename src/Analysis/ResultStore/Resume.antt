-- ===== src/Analysis/ResultStore/Resume.antt =====
-- What an interrupted analysis loads when it is resumed, and that a result is stored only once.
use hate_speech_rag_service.Common.{
  ℕ, Bool, true, false, not, ◌&&◌, ◌||◌, some, List, [], ◌∷◌, ◌++◌, ◌≡◌, refl, ◌∙◌, ap, subst, ◌==◌,
  nat_Eq, ==_refl, if◌then◌else◌, any, Bool-cases, inl, inr, arith, nat_eq_iff, any-sort_by,
  any-filter, any-append, any-map,
}
use hate_speech_rag_service.Db.Content.{CommentSnapshot}
use hate_speech_rag_service.Db.Database.{Database}
use hate_speech_rag_service.Jobs.Orchestrator.{is_current}
use hate_speech_rag_service.Analysis.Models.{AnalysisItem, AnalysisOutcome, StepAttemptContext}
use hate_speech_rag_service.Analysis.ResultStore.{
  comment, is_result_of, is_open_comment, load_comment_items, persist, new_result, Holds,
}

abbrev pub is_loaded : ℕ → List AnalysisItem → Bool
is_loaded id = any (λ item. item.source_id == id)

is_loaded_lem :
    (context : StepAttemptContext) (db : Database) (id : ℕ)
    → is_loaded id (load_comment_items context db).1
      ≡ any
          (λ row. is_open_comment context db.comment_analysis_results row && row.id == id)
          db.comment_snapshots
unfolding load_comment_items
is_loaded_lem context db id = simp (any-map, any-sort_by, any-filter)

-- An item is loaded exactly if its comment belongs to the job and has no result in the run: so a
-- resumed analysis takes up every comment that is still open, and none that is done.
pub load_comment_items_lem :
    (context : StepAttemptContext) (db : Database) (id : ℕ)
    → is_loaded id (load_comment_items context db).1 ≡ (
        any (λ row. row.job_id == context.job_id && row.id == id) db.comment_snapshots
        && not (any (is_result_of context.run_id id) db.comment_analysis_results))
load_comment_items_lem context db id = is_loaded_lem context db id ∙ spread db.comment_snapshots
  where
    spread :
        (rows : List CommentSnapshot)
        → any (λ row. is_open_comment context db.comment_analysis_results row && row.id == id) rows
          ≡ (any (λ row. row.job_id == context.job_id && row.id == id) rows
              && not (any (is_result_of context.run_id id) db.comment_analysis_results))
    spread [] = refl
    spread (row ∷ rows) = elim (Bool-cases (row.id == id)) [
      | inl e ↦
          let same : row.id ≡ id = (nat_eq_iff row.id id).0 e in
          ground (
            arith,
            spread rows,
            ap (λ i. any (is_result_of context.run_id i) db.comment_analysis_results) same,
          )
      | inr e ↦ ground (arith, spread rows)
    ]

-- The comments that have a result in the run after `persist`.
module _ (context : StepAttemptContext) (outcome : AnalysisOutcome) (db : Database) (id : ℕ) where
  abbrev Persisted : Database → Type 0
  Persisted db' =
      (any (is_result_of context.run_id id) db'.comment_analysis_results ≡ (
        any (is_result_of context.run_id id) db.comment_analysis_results
        || outcome.source_id == id))
      × (db'.comment_snapshots ≡ db.comment_snapshots)

  present :
      any (is_result_of context.run_id outcome.source_id) db.comment_analysis_results ≡ true
      → any (is_result_of context.run_id id) db.comment_analysis_results ≡ (
          any (is_result_of context.run_id id) db.comment_analysis_results
          || outcome.source_id == id)
  present h = elim (Bool-cases (outcome.source_id == id)) [
    | inl e ↦
        let same = (nat_eq_iff outcome.source_id id).0 e in
        ground (
          arith,
          subst (λ i. any (is_result_of context.run_id i) db.comment_analysis_results ≡ true) same
              h,
        )
    | inr e ↦ ground arith
  ]

  added :
      (db' : Database)
      → any
          (is_result_of context.run_id id)
          (db.comment_analysis_results ++ new_result context outcome db' ∷ [])
        ≡ (any (is_result_of context.run_id id) db.comment_analysis_results
            || outcome.source_id == id)
  added db' =
      any-append (is_result_of context.run_id id) db.comment_analysis_results _
      ∙ ground (arith, ==_refl context.run_id)

  persist-Holds : Holds Persisted (persist context comment outcome db)
  unfolding persist
  persist-Holds =
      elim (Bool-cases (any (is_current context.step_id context.expected_attempt) db.job_steps)) [
        | inr e ↦ rw (e, Holds) tt
        | inl e ↦
            elim (Bool-cases
              (any (is_result_of context.run_id outcome.source_id) db.comment_analysis_results)) [
                | inl f ↦ rw (e, f, Holds) (present f, refl)
                | inr f ↦ rw (e, f, Holds) (added db, refl)
              ]
      ]

-- After the result of an item is persisted, that item is loaded no more, and any other item is loaded
-- exactly if it was loaded before.
pub load_comment_items-persist :
    (context : StepAttemptContext) (outcome : AnalysisOutcome) (db db' : Database) (inserted : Bool)
    (id : ℕ)
    → persist context comment outcome db ≡ some (inserted, db')
    → is_loaded id (load_comment_items context db').1
      ≡ (if outcome.source_id == id then false else is_loaded id (load_comment_items context db).1)
load_comment_items-persist context outcome db db' inserted id e =
    let facts =
      subst (Holds (Persisted context outcome db id)) e (persist-Holds context outcome db id) in
    rw (load_comment_items_lem, load_comment_items_lem)
      (ground
        (arith, facts.0, ap (any (λ row. row.job_id == context.job_id && row.id == id)) facts.1))
