-- ===== src/Analysis/Services/Turns.antt =====
-- A sequential run of the owner of a step.
use hate_speech_rag_service.Common.{
  ℕ, suc, Bool, true, false, not, ◌&&◌, some, List, [], ◌∷◌, ◌==◌, nat_Eq, ◌≡◌, refl, ap, ◌∙◌,
  arith, if◌then◌else◌,
}
use hate_speech_rag_service.Common.Json.{JsonDict, int}
use hate_speech_rag_service.Db.Database.{Database}
use hate_speech_rag_service.Jobs.Repository.{add_log}
use hate_speech_rag_service.Analysis.Models.{AnalysisItem, AnalysisOutcome, StepAttemptContext}
use hate_speech_rag_service.Analysis.Executor.{Classified, outcome}
use hate_speech_rag_service.Analysis.ResultStore.{
  comment, load_comment_items, insert_result, log_progress,
}
use hate_speech_rag_service.Analysis.ResultStore.Resume.{is_loaded, load_comment_items-persist}
use hate_speech_rag_service.Analysis.Sequential.{
  RuntimeMetrics, Turn, Counters, SequentialEnd, finished, run_sequential, record_turn, log_if,
  is_due, progress_payload, count_turn, kept, TurnEnd, ends, goes_on, take_turn, after_classify,
  after_record,
}
use hate_speech_rag_service.Analysis.Services.{persist_outcome, log_total}
use hate_speech_rag_service.Analysis.Services.Owner.{
  IsOwned, beat, beat-IsOwned, insert_result-IsOwned, owner-persist, owner-fence,
}

-- Whether an item is still to be analyzed.
abbrev pub is_open : StepAttemptContext → Database → ℕ → Bool
is_open context db id = is_loaded id (load_comment_items context db).1

module _ (context : StepAttemptContext) (total : ℕ) where
  -- A progress message of the owner is logged, and changes nothing that is open.
  pub owner-log_total :
      (payload : JsonDict) (db : Database)
      → IsOwned context db
      → (after : Database) × (log_total context total payload db ≡ some after)
        × IsOwned context after
        × ((id : ℕ) → is_open context after id ≡ is_open context db id)
  unfolding log_progress load_comment_items
  owner-log_total payload db h = (
    add_log context.job_id context.step_id "info" "rag_progress" context.step_key
        (("total", int total) ∷ payload) (beat context db),
    rw (owner-fence context db h, log_progress) refl,
    beat-IsOwned context db h,
    λ id. refl,
  )

  owner-persist_outcome :
      (o : AnalysisOutcome) (db : Database)
      → IsOwned context db
      → (after : Database) × (persist_outcome context comment o db ≡ some after)
        × IsOwned context after
        × ((id : ℕ)
            → is_open context after id
              ≡ (if o.source_id == id then false else is_open context db id))
  owner-persist_outcome o db h =
      let result : Bool × Database = insert_result context comment o (beat context db) in
      (
        result.1,
        rw (owner-persist context o db h, persist_outcome) refl,
        insert_result-IsOwned context o (beat context db) (beat-IsOwned context db h),
        λ id.
            load_comment_items-persist context o db result.1 result.0 id
              (owner-persist context o db h),
      )

  module _ (item_concurrency started : ℕ) (baseline : RuntimeMetrics) where
    owner-log_if :
        (b : Bool) (turn : Turn) (c : Counters) (db : Database)
        → IsOwned context db
        → (c2 : Counters) × (after : Database) × (log_if item_concurrency started baseline
              (persist_outcome context comment)
              (log_total context total)
              b
              turn
              c
              db
            ≡ kept c2 after)
          × IsOwned context after
          × ((id : ℕ) → is_open context after id ≡ is_open context db id)
    unfolding log_if
    owner-log_if false turn c db h = (c, db, refl, h, λ id. refl)
    owner-log_if true turn c db h =
        let (after, logs, owned, same) =
          owner-log_total (progress_payload item_concurrency started baseline c 0 turn.now) db h in
        (
          record c { last_logged_count = c.completed; last_logged_at = turn.now },
          after,
          rw (logs, log_if) refl,
          owned,
          same,
        )

    owner-record_turn :
        (turn : Turn) (o : AnalysisOutcome) (c : Counters) (db : Database)
        → IsOwned context db
        → (c2 : Counters) × (after : Database) × (record_turn item_concurrency started baseline
              (persist_outcome context comment)
              (log_total context total)
              turn
              o
              c
              db
            ≡ kept c2 after)
          × IsOwned context after
          × ((id : ℕ)
              → is_open context after id
                ≡ (if o.source_id == id then false else is_open context db id))
    unfolding record_turn
    owner-record_turn turn o c db h =
        let (stored, persists, owned, without) = owner-persist_outcome o db h in
        let counted : Counters = count_turn item_concurrency started baseline turn o c in
        let (c2, after, logs, owned2, same) =
          owner-log_if (is_due item_concurrency started baseline counted turn.now) turn counted
            stored owned in
        (c2, after, rw (persists, record_turn) logs, owned2, λ id. same id ∙ without id)

    module _ (classify : AnalysisItem → Classified) (turns : ℕ → Turn)
        (undisturbed : (i : ℕ) → (turns i).stop ≡ false)
        (answered : (item : AnalysisItem)
          → (o : AnalysisOutcome) × (classify item ≡ outcome o)
            × (o.source_id ≡ item.source_id)) where
      run_sequential_item :
          (item : AnalysisItem) (items : List AnalysisItem) (i : ℕ) (c c2 : Counters)
          (db stored : Database) (o : AnalysisOutcome)
          → classify item ≡ outcome o
          → record_turn item_concurrency started baseline
              (persist_outcome context comment)
              (log_total context total)
              (turns i)
              o
              c
              db
            ≡ kept c2 stored
          → run_sequential item_concurrency started baseline
              (persist_outcome context comment)
              (log_total context total)
              classify
              turns
              i
              (item ∷ items)
              c
              db
            ≡ run_sequential item_concurrency started baseline
                (persist_outcome context comment)
                (log_total context total)
                classify
                turns
                (suc i)
                items
                c2
                stored
      unfolding run_sequential take_turn after_classify
      run_sequential_item item items i c c2 db stored o classifies records =
          let next : TurnEnd → SequentialEnd = λ e. elim e [
            | ends end ↦ end
            | goes_on counted after ↦
                run_sequential item_concurrency started baseline (persist_outcome context comment)
                  (log_total context total) classify turns (suc i) items counted after
          ] in
          let classify_next : Classified → TurnEnd = λ x.
            after_classify item_concurrency started baseline (persist_outcome context comment)
              (log_total context total) x (turns i) c db in
          ap
            (λ b. next (
              take_turn item_concurrency started baseline (persist_outcome context comment)
                (log_total context total) b (classify item) (turns i) c db))
            (undisturbed i)
          ∙ ap (λ x. next (classify_next x)) classifies
          ∙ ap (λ r. next (after_record r)) records

      pub owner-run_sequential :
          (items : List AnalysisItem) (i : ℕ) (c : Counters) (db : Database)
          → IsOwned context db
          → (after : Database) × (run_sequential item_concurrency started baseline
                (persist_outcome context comment)
                (log_total context total)
                classify
                turns
                i
                items
                c
                db
              ≡ finished after)
            × IsOwned context after
            × ((id : ℕ)
                → is_open context after id ≡ (not (is_loaded id items) && is_open context db id))
      unfolding run_sequential
      owner-run_sequential [] i c db h =
          let (after, logs, owned, same) =
            owner-log_total (progress_payload item_concurrency started baseline c 0 (turns i).now)
              db h in
          (after, rw (logs, run_sequential) refl, owned, same)
      owner-run_sequential (item ∷ items) i c db h =
          let (o, classifies, of_item) = answered item in
          let (c2, stored, records, owned, without) = owner-record_turn (turns i) o c db h in
          let (after, finishes, owned2, rest) =
            owner-run_sequential items (suc i) c2 stored owned in
          (
            after,
            run_sequential_item item items i c c2 db stored o classifies records ∙ finishes,
            owned2,
            λ id. ground (arith, rest id, without id, of_item, ap (λ k. k == id) of_item),
          )
