-- ===== src/Analysis/Sequential.antt =====
-- RuntimeMetrics, the sequential mode of RagRuntime.run and `_progress_payload` of
-- app/analysis/executor.py. Times are whole milliseconds. The callbacks work on the database, which
-- nothing else writes meanwhile.
use hate_speech_rag_service.Common.{
  ℕ, suc, ◌+◌, ◌-◌, Bool, true, false, ◌||◌, Option, none, some, List, [], ◌∷◌, if◌then◌else◌, leb,
}
use hate_speech_rag_service.Common.Json.{JsonDict, int}
use hate_speech_rag_service.Db.Results.{is_succeeded, is_failed}
use hate_speech_rag_service.Db.Database.{Database}
use hate_speech_rag_service.Analysis.Models.{AnalysisItem, AnalysisOutcome}
use hate_speech_rag_service.Analysis.Executor.{Classified, outcome, raises}

pub record RuntimeMetrics : Type 0 where
  pub embedding_retries : ℕ
  pub llm_retries : ℕ
  pub input_tokens : ℕ
  pub output_tokens : ℕ

abbrev pub or_zero : Option ℕ → ℕ
or_zero none = 0
or_zero (some n) = n

unfoldable pub record_outcome : AnalysisOutcome → RuntimeMetrics → RuntimeMetrics
record_outcome o m = record m {
  input_tokens = m.input_tokens + or_zero o.usage.input_tokens;
  output_tokens = m.output_tokens + or_zero o.usage.output_tokens;
}

-- What is read from outside for one item: the stop event before it, the retries that its
-- classification has counted, and the clock after its outcome is stored.
pub record Turn : Type 0 where
  pub stop : Bool
  pub embedding_retries : ℕ
  pub llm_retries : ℕ
  pub now : ℕ

-- The local variables of `run`, and the metrics.
pub record Counters : Type 0 where
  pub completed : ℕ
  pub succeeded : ℕ
  pub failed : ℕ
  pub last_logged_count : ℕ
  pub last_logged_at : ℕ
  pub metrics : RuntimeMetrics

abbrev pub first_counters : ℕ → RuntimeMetrics → Counters
first_counters started metrics = record {
  completed = 0;
  succeeded = 0;
  failed = 0;
  last_logged_count = 0;
  last_logged_at = started;
  metrics = metrics;
}

-- How `run` ends: it returns, raises WorkerShutdownRequested at the stop event, passes on the
-- StaleStepExecution of a callback, or an exception of the classification.
pub data SequentialEnd : Type 0 where
  finished shutdown stale aborted : Database → SequentialEnd

-- How `record` ends: it returns, or a callback raises; what was committed stays.
pub data Recorded : Type 0 where
  kept : Counters → Database → Recorded
  failed : Database → Recorded

-- One round of the loop over the items: an end, or what to go on with.
pub data TurnEnd : Type 0 where
  ends : SequentialEnd → TurnEnd
  goes_on : Counters → Database → TurnEnd

abbrev pub after_record : Recorded → TurnEnd
after_record (failed after) = ends (stale after)
after_record (kept counted after) = goes_on counted after

module _ (item_concurrency started : ℕ) (baseline : RuntimeMetrics) where
  unfoldable pub progress_payload : Counters → ℕ → ℕ → JsonDict
  progress_payload c in_flight now =
      ("completed", int c.completed)
      ∷ ("succeeded", int c.succeeded)
      ∷ ("failed", int c.failed)
      ∷ ("in_flight", int in_flight)
      ∷ ("item_concurrency", int item_concurrency)
      ∷ ("embedding_retries", int (c.metrics.embedding_retries - baseline.embedding_retries))
      ∷ ("llm_retries", int (c.metrics.llm_retries - baseline.llm_retries))
      ∷ ("input_tokens", int (c.metrics.input_tokens - baseline.input_tokens))
      ∷ ("output_tokens", int (c.metrics.output_tokens - baseline.output_tokens))
      ∷ ("elapsed_ms", int (now - started))
      ∷ []

  -- The retries of the classification, the outcome's tokens and the counters.
  unfoldable pub count_turn : Turn → AnalysisOutcome → Counters → Counters
  unfolding record_outcome
  count_turn turn o c = record c {
    completed = c.completed + 1;
    succeeded = c.succeeded + (if is_succeeded o.status then 1 else 0);
    failed = c.failed + (if is_failed o.status then 1 else 0);
    metrics = record_outcome o (record c.metrics {
      embedding_retries = c.metrics.embedding_retries + turn.embedding_retries;
      llm_retries = c.metrics.llm_retries + turn.llm_retries;
    });
  }

  -- Ten more items, or five more seconds, since the last progress message.
  abbrev pub is_due : Counters → ℕ → Bool
  is_due c now = leb 10 (c.completed - c.last_logged_count) || leb 5000 (now - c.last_logged_at)

  module _ (persist : AnalysisOutcome → Database → Option Database)
      (progress : JsonDict → Database → Option Database) where
    unfoldable pub log_if : Bool → Turn → Counters → Database → Recorded
    unfolding progress_payload
    log_if false turn c db = kept c db
    log_if true turn c db = elim (progress (progress_payload c 0 turn.now) db) [
      | none ↦ failed db
      | some logged ↦
          kept (record c { last_logged_count = c.completed; last_logged_at = turn.now }) logged
    ]

    -- `record(outcome, 0)`
    unfoldable pub record_turn : Turn → AnalysisOutcome → Counters → Database → Recorded
    unfolding count_turn log_if
    record_turn turn o c db = elim (persist o db) [
      | none ↦ failed db
      | some stored ↦
          let counted = count_turn turn o c in log_if (is_due counted turn.now) turn counted stored
    ]

    unfoldable pub after_classify : Classified → Turn → Counters → Database → TurnEnd
    unfolding record_turn
    after_classify raises turn c db = ends (aborted db)
    after_classify (outcome o) turn c db = after_record (record_turn turn o c db)

    -- The stop event is tested before an item is classified.
    unfoldable pub take_turn : Bool → Classified → Turn → Counters → Database → TurnEnd
    unfolding after_classify
    take_turn true classified turn c db = ends (shutdown db)
    take_turn false classified turn c db = after_classify classified turn c db

    unfoldable pub run_sequential :
        (AnalysisItem → Classified)
        → (ℕ → Turn)
        → ℕ
        → List AnalysisItem
        → Counters
        → Database
        → SequentialEnd
    unfolding take_turn progress_payload
    run_sequential classify turns i [] c db =
        elim (progress (progress_payload c 0 (turns i).now) db) [
          | none ↦ stale db
          | some logged ↦ finished logged
        ]
    run_sequential classify turns i (item ∷ items) c db =
        elim (take_turn (turns i).stop (classify item) (turns i) c db) [
          | ends e ↦ e
          | goes_on counted after ↦ run_sequential classify turns (suc i) items counted after
        ]
