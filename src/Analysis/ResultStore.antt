-- ===== src/Analysis/ResultStore.antt =====
-- AnalysisResultStore of app/analysis/result_store.py. Each method is one transaction: where it
-- raises StaleStepExecution, here `none`, everything that it wrote is rolled back.
pub mod Counters
pub mod Resume
pub mod Scripts
use hate_speech_rag_service.Common.{
  ℕ, suc, ◌+◌, String, Bool, true, false, not, ◌&&◌, Option, none, some, List, [], ◌∷◌, ◌++◌, map,
  ◌==◌, nat_Eq, string_Eq, if◌then◌else◌, any, filter, count, sort_by, update_where, length,
}
use hate_speech_rag_service.Common.Json.{JsonDict}
use hate_speech_rag_service.Db.JobRows.{JobStep}
use hate_speech_rag_service.Db.Content.{CommentSnapshot, TranscriptSnapshot, TranscriptSegment}
use hate_speech_rag_service.Db.Results.{ResultStatus, AnalysisResult, is_succeeded, is_failed}
use hate_speech_rag_service.Db.Database.{Database}
use hate_speech_rag_service.Jobs.Repository.{add_log}
use hate_speech_rag_service.Jobs.Orchestrator.{is_current}
use hate_speech_rag_service.Analysis.Models.{
  SourceType, AnalysisItem, AnalysisOutcome, StepAttemptContext,
}

pub data ResultKind : Type 0 where
  comment script : ResultKind

-- `_result_target`: the table of a kind.
abbrev pub results : ResultKind → Database → List AnalysisResult
results comment db = db.comment_analysis_results
results script db = db.script_analysis_results

abbrev pub with_results : ResultKind → List AnalysisResult → Database → Database
with_results comment rows db = record db { comment_analysis_results = rows }
with_results script rows db = record db { script_analysis_results = rows }

abbrev pub is_result_of : ℕ → ℕ → AnalysisResult → Bool
is_result_of run_id source_id row = row.analysis_run_id == run_id && row.source_id == source_id

-- `a or b` on texts, where the empty text counts as missing.
abbrev pub text_or : Option String → String → String
text_or none other = other
text_or (some text) other = if text == "" then other else text

abbrev pub comment_item : CommentSnapshot → AnalysisItem
comment_item row = record {
  source_id = row.id;
  source_type = if row.is_reply then SourceType.reply else SourceType.comment;
  text = text_or row.text_original (text_or row.text_display "");
}

-- The comments of the job without a result in this run.
abbrev pub is_open_comment : StepAttemptContext → List AnalysisResult → CommentSnapshot → Bool
is_open_comment context done row =
    row.job_id == context.job_id && not (any (is_result_of context.run_id row.id) done)

unfoldable pub load_comment_items : StepAttemptContext → Database → ℕ × List AnalysisItem
load_comment_items context db = (
  count (λ row. row.job_id == context.job_id) db.comment_snapshots,
  map comment_item (
      sort_by (λ row. row.collected_at)
        (sort_by (λ row. row.id)
          (filter (is_open_comment context db.comment_analysis_results) db.comment_snapshots))),
)

abbrev pub script_item : TranscriptSegment → AnalysisItem
script_item row = record {
  source_id = row.id;
  source_type = SourceType.script_segment;
  text = row.text;
}

-- The join of a segment with a snapshot of the job.
abbrev pub is_segment_of : ℕ → List TranscriptSnapshot → TranscriptSegment → Bool
is_segment_of job_id snapshots row =
    any (λ snapshot. snapshot.id == row.transcript_snapshot_id && snapshot.job_id == job_id)
      snapshots

unfoldable pub load_script_items : StepAttemptContext → Database → ℕ × List AnalysisItem
load_script_items context db =
    let source =
      filter (is_segment_of context.job_id db.transcript_snapshots) db.transcript_segments in
    (
      length source,
      map script_item (
          sort_by (λ row. row.segment_index)
            (filter
              (λ row. not (any (is_result_of context.run_id row.id) db.script_analysis_results))
              source)),
    )

unfoldable pub fence : StepAttemptContext → Database → Option Database
fence context db =
    let current = is_current context.step_id context.expected_attempt in
    if any current db.job_steps
    then some (record db {
      job_steps =
          update_where current (λ row. record row { heartbeat_at = some db.now }) db.job_steps;
    })
    else none

abbrev pub count_outcome : ResultStatus → ℕ → JobStep → JobStep
count_outcome ResultStatus.succeeded now row = record row {
  items_completed = row.items_completed + 1;
  items_succeeded = row.items_succeeded + 1;
  heartbeat_at = some now;
}
count_outcome ResultStatus.failed now row = record row {
  items_completed = row.items_completed + 1;
  items_failed = row.items_failed + 1;
  heartbeat_at = some now;
}

abbrev pub new_result : StepAttemptContext → AnalysisOutcome → Database → AnalysisResult
new_result context outcome db = record {
  id = db.next_id;
  analysis_run_id = context.run_id;
  source_id = outcome.source_id;
  status = outcome.status;
  values = outcome.result_values;
  created_at = db.now;
}

-- `insert … on conflict do nothing`, and the step's counters if a row was inserted.
unfoldable pub insert_result :
    StepAttemptContext → ResultKind → AnalysisOutcome → Database → Bool × Database
insert_result context kind outcome db =
    if any (is_result_of context.run_id outcome.source_id) (results kind db)
    then (false, record db { next_id = suc db.next_id })
    else (
      true,
      with_results kind (results kind db ++ new_result context outcome db ∷ []) (record db {
        next_id = suc db.next_id;
        job_steps =
            update_where (λ row. row.id == context.step_id) (count_outcome outcome.status db.now)
              db.job_steps;
      }),
    )

unfoldable pub persist :
    StepAttemptContext → ResultKind → AnalysisOutcome → Database → Option (Bool × Database)
unfolding fence insert_result
persist context kind outcome db = elim (fence context db) [
  | none ↦ none
  | some fenced ↦ some (insert_result context kind outcome fenced)
]

-- The rows of the run with a status, which the query groups.
abbrev pub count_status : ℕ → (ResultStatus → Bool) → List AnalysisResult → ℕ
count_status run_id status = count (λ row. row.analysis_run_id == run_id && status row.status)

abbrev pub reconciled : ℕ → ℕ → ℕ → ℕ → JobStep → JobStep
reconciled total succeeded failed now row = record row {
  items_total = some total;
  items_completed = succeeded + failed;
  items_succeeded = succeeded;
  items_failed = failed;
  heartbeat_at = some now;
}

pub record Progress : Type 0 where
  pub total : ℕ
  pub succeeded : ℕ
  pub failed : ℕ

unfoldable pub reconcile :
    StepAttemptContext → ResultKind → ℕ → Database → Option (Progress × Database)
reconcile context kind total db =
    let current = is_current context.step_id context.expected_attempt in
    let succeeded = count_status context.run_id is_succeeded (results kind db) in
    let failed = count_status context.run_id is_failed (results kind db) in
    if any current db.job_steps
    then some (
      record { total = total; succeeded = succeeded; failed = failed },
      record db {
        job_steps = update_where current (reconciled total succeeded failed db.now) db.job_steps;
      },
    )
    else none

abbrev pub heartbeat : StepAttemptContext → Database → Option Database
heartbeat = fence

unfoldable pub log_progress : StepAttemptContext → JsonDict → Database → Option Database
unfolding fence
log_progress context payload db = elim (fence context db) [
  | none ↦ none
  | some fenced ↦
      some (
        add_log context.job_id context.step_id "info" "rag_progress" context.step_key payload
          fenced)
]

-- What a method leaves behind, if it does not raise.
abbrev pub Holds {ℓ} : {A : Type ℓ} → (Database → Type 0) → Option (A × Database) → Type 0
Holds P none = Unit
Holds P (some (_, db)) = P db
