-- ===== src/Analysis/ResultStore/Scripts.antt =====
-- What an interrupted analysis of a transcript loads when it is resumed.
use hate_speech_rag_service.Common.{
  ℕ, not, ◌&&◌, List, [], ◌∷◌, ◌≡◌, refl, ◌∙◌, ap, ◌==◌, nat_Eq, any, Bool-cases, inl, inr, arith,
  nat_eq_iff, any-sort_by, any-filter, any-map,
}
use hate_speech_rag_service.Db.Content.{TranscriptSegment}
use hate_speech_rag_service.Db.Database.{Database}
use hate_speech_rag_service.Analysis.Models.{StepAttemptContext}
use hate_speech_rag_service.Analysis.ResultStore.{is_result_of, is_segment_of, load_script_items}
use hate_speech_rag_service.Analysis.ResultStore.Resume.{is_loaded}

loaded_script :
    (context : StepAttemptContext) (db : Database) (id : ℕ)
    → is_loaded id (load_script_items context db).1
      ≡ any
          (λ row.
            is_segment_of context.job_id db.transcript_snapshots row
            && (not (any (is_result_of context.run_id row.id) db.script_analysis_results)
                && row.id == id))
          db.transcript_segments
unfolding load_script_items
loaded_script context db id = simp (any-map, any-sort_by, any-filter)

-- An item is loaded exactly if its segment belongs to a transcript of the job and has no result in
-- the run.
pub load_script_items_lem :
    (context : StepAttemptContext) (db : Database) (id : ℕ)
    → is_loaded id (load_script_items context db).1 ≡ (
        any
          (λ row. is_segment_of context.job_id db.transcript_snapshots row && row.id == id)
          db.transcript_segments
        && not (any (is_result_of context.run_id id) db.script_analysis_results))
load_script_items_lem context db id = loaded_script context db id ∙ spread db.transcript_segments
  where
    spread :
        (rows : List TranscriptSegment)
        → any
            (λ row.
              is_segment_of context.job_id db.transcript_snapshots row
              && (not (any (is_result_of context.run_id row.id) db.script_analysis_results)
                  && row.id == id))
            rows
          ≡ (any
                (λ row. is_segment_of context.job_id db.transcript_snapshots row && row.id == id)
                rows
              && not (any (is_result_of context.run_id id) db.script_analysis_results))
    spread [] = refl
    spread (row ∷ rows) = elim (Bool-cases (row.id == id)) [
      | inl e ↦
          let same : row.id ≡ id = (nat_eq_iff row.id id).0 e in
          ground (
            arith,
            spread rows,
            ap (λ i. any (is_result_of context.run_id i) db.script_analysis_results) same,
          )
      | inr e ↦ ground (arith, spread rows)
    ]
