-- ===== src/Analysis/Tests.antt =====
-- Small inputs of the analysis, and the theorems at concrete inputs.
use hate_speech_rag_service.Common.{
  ℕ, zero, suc, ◌+◌, ◌≤◌, ◌<◌, String, true, false, not, ◌&&◌, none, some, [], ◌∷◌, List, ◌≡◌, ◌↔◌,
  refl, ◌==◌, nat_Eq, if◌then◌else◌, any, length, arith,
}
use hate_speech_rag_service.Common.Json.{Fields, bool, str, arr, nil, cons, end, field, get_field}
use hate_speech_rag_service.Db.JobRows.{StepStatus, JobStep}
use hate_speech_rag_service.Db.Content.{CommentSnapshot, TranscriptStatus}
use hate_speech_rag_service.Db.Results.{ResultStatus, ResultValues, AnalysisResult}
use hate_speech_rag_service.Db.Database.{Database, empty}
use hate_speech_rag_service.Jobs.Repository.{new_step}
use hate_speech_rag_service.Analysis.Models.{
  AnalysisItem, AnalysisOutcome, SourceType, StepAttemptContext,
}
use hate_speech_rag_service.Analysis.Executor.{Classified, outcome, Round, run_parallel}
use hate_speech_rag_service.Analysis.Executor.Runs.{IsDone, run_parallel_finished}
use hate_speech_rag_service.Analysis.ResultStore.{
  comment, persist, Progress, load_comment_items, load_script_items, is_segment_of, is_result_of,
}
use hate_speech_rag_service.Analysis.ResultStore.Scripts.{load_script_items_lem}
use hate_speech_rag_service.Analysis.ResultStore.Counters.{IsCounted, persist-IsCounted}
use hate_speech_rag_service.Analysis.ResultStore.Resume.{
  is_loaded, load_comment_items_lem, load_comment_items-persist,
}
use hate_speech_rag_service.Analysis.Retry.{
  RetryPolicy, Call, returns, raises, Task, value, raised, run, attempt_once,
}
use hate_speech_rag_service.Analysis.Retry.Bounds.{IsBounded, run-IsBounded}
use hate_speech_rag_service.Analysis.Retry.Outcomes.{GoesOn, GivesUp, run_succeeds, run_raises}
use hate_speech_rag_service.Analysis.Validator.{has_hangul, validate_fields}
use hate_speech_rag_service.Analysis.Validator.Rules.{IsAcceptable, validate_fields_lem}

abbrev context : StepAttemptContext
context = record {
  job_id = 1;
  step_id = 7;
  step_key = "analyze_comments";
  run_id = 20;
  expected_attempt = 2;
}

abbrev no_values : ResultValues
no_values = record {
  is_hate_speech = none;
  categories = none;
  target_group = none;
  hate_type = none;
  reasoning = none;
  similar_cases_used = none;
  definition_docs_used = none;
  rag_context_status = none;
  prompt_version = none;
  model_name = none;
  raw_response = none;
  error_code = some "LLM_TIMEOUT";
  error_message = none;
}

abbrev comment_row : ℕ → CommentSnapshot
comment_row id = record {
  id = id;
  job_id = 1;
  youtube_video_id = "v";
  youtube_comment_id = "c";
  parent_youtube_comment_id = none;
  parent_comment_snapshot_id = none;
  is_reply = false;
  reply_depth = 0;
  author_display_name = none;
  author_channel_id = none;
  text_display = none;
  text_original = some "text";
  like_count = none;
  reply_count = none;
  published_at = none;
  updated_at = none;
  raw_payload = none;
  collected_at = 5;
}

abbrev done_result : AnalysisResult
done_result = record {
  id = 40;
  analysis_run_id = 20;
  source_id = 30;
  status = ResultStatus.succeeded;
  values = no_values;
  created_at = 6;
}

abbrev running_step : JobStep
running_step = record (new_step 7 1 "analyze_comments" false) {
  status = StepStatus.running;
  attempt_count = 2;
}

-- Comment 30 has a result of an earlier attempt, comment 31 has none.
abbrev resumed : Database
resumed = record empty {
  job_steps = running_step ∷ [];
  comment_snapshots = comment_row 30 ∷ comment_row 31 ∷ [];
  comment_analysis_results = done_result ∷ [];
  now = 9;
  next_id = 50;
}

abbrev failure : AnalysisOutcome
failure = record {
  source_id = 31;
  status = ResultStatus.failed;
  result_values = no_values;
  usage = record { input_tokens = none; output_tokens = none };
  validation_attempts = 0;
}

load_resumed : is_loaded 31 (load_comment_items context resumed).1 ≡ true
unfolding load_comment_items
load_resumed = refl

load_done : is_loaded 30 (load_comment_items context resumed).1 ≡ false
unfolding load_comment_items
load_done = refl

abbrev reconciled_db : Database
reconciled_db = record resumed {
  job_steps =
      record running_step {
        items_total = some 2;
        items_completed = 1;
        items_succeeded = 1;
        heartbeat_at = some 9;
      }
      ∷ [];
}

abbrev one_done : Progress
one_done = record { total = 2; succeeded = 1; failed = 0 }

abbrev persisted_db : Database
persisted_db = record reconciled_db {
  job_steps =
      record running_step {
        items_total = some 2;
        items_completed = 2;
        items_succeeded = 1;
        items_failed = 1;
        heartbeat_at = some 9;
      }
      ∷ [];
  comment_analysis_results =
      done_result
      ∷ record {
        id = 50;
        analysis_run_id = 20;
        source_id = 31;
        status = ResultStatus.failed;
        values = no_values;
        created_at = 9;
      }
      ∷ [];
  next_id = 51;
}

IsCounted-before : IsCounted context comment reconciled_db
IsCounted-before = (λ _. (refl, refl, refl), tt)

persist-failure : persist context comment failure reconciled_db ≡ some (true, persisted_db)
unfolding persist
persist-failure = refl

persist-IsCounted_example : IsCounted context comment persisted_db
persist-IsCounted_example =
    persist-IsCounted context comment failure reconciled_db persisted_db true IsCounted-before
      persist-failure

load_comment_items_lem_example : is_loaded 31 (load_comment_items context resumed).1 ≡ (
    any (λ row. row.job_id == 1 && row.id == 31) resumed.comment_snapshots
    && not (any (is_result_of 20 31) resumed.comment_analysis_results))
load_comment_items_lem_example = load_comment_items_lem context resumed 31

abbrev transcribed : Database
transcribed = record empty {
  transcript_snapshots =
      record {
        id = 50;
        job_id = 1;
        youtube_video_id = "dQw4w9WgXcQ";
        language_code = some "ko";
        is_auto_generated = some false;
        source_type = "public_caption";
        source_uri = none;
        raw_text = none;
        raw_payload = none;
        status = TranscriptStatus.succeeded;
        error_code = none;
        collected_at = 3;
      }
      ∷ [];
  transcript_segments =
      record {
        id = 51;
        transcript_snapshot_id = 50;
        segment_index = 0;
        start_seconds = some 0;
        end_seconds = some 900;
        text = "첫 문장";
        token_count = some 2;
        created_at = 3;
      }
      ∷ [];
}

load_script_items_lem_example : is_loaded 51 (load_script_items context transcribed).1 ≡ (
    any
      (λ row. is_segment_of 1 transcribed.transcript_snapshots row && row.id == 51)
      transcribed.transcript_segments
    && not (any (is_result_of 20 51) transcribed.script_analysis_results))
load_script_items_lem_example = load_script_items_lem context transcribed 51

load_comment_items-persist_example :
    is_loaded 31 (load_comment_items context persisted_db).1 ≡ false
load_comment_items-persist_example =
    load_comment_items-persist context failure reconciled_db persisted_db true 31 persist-failure

-- The third attempt succeeds; the second failure brings a delay from the server.
abbrev policy : RetryPolicy
policy = record {
  max_attempts = 3;
  base_delay = 500_000;
  max_delay = 8_000_000;
  jitter_percent = 20;
  random_value = λ _. 500_000;
}

abbrev flaky : ℕ → Call ℕ String
flaky (suc (suc (suc _))) = returns "ok"
flaky attempt = raises attempt

abbrev patient : Task ℕ String
patient = record {
  operation = flaky;
  is_retryable = λ _. true;
  retry_after = λ e. if e == 2 then some 3_000_000 else none;
  stop_before = λ _. false;
  stop_after = λ _. false;
}

run-patient :
    run policy patient
    ≡ record { result = value "ok"; calls = 3; delays = 550_000 ∷ 3_000_000 ∷ [] }
unfolding run attempt_once
run-patient = refl

run-IsBounded_example : IsBounded policy patient 3 (run policy patient)
run-IsBounded_example = run-IsBounded policy patient (omega arith)

goes_on : (k : ℕ) → k < 3 → 1 ≤ k → GoesOn policy patient k
goes_on zero below above = absurd (omega arith)
goes_on (suc zero) below above = record {
  error = 1;
  fails = refl;
  retryable = refl;
  not_stopped_before = refl;
  not_stopped_after = refl;
}
goes_on (suc (suc zero)) below above = record {
  error = 2;
  fails = refl;
  retryable = refl;
  not_stopped_before = refl;
  not_stopped_after = refl;
}
goes_on (suc (suc (suc k))) below above = absurd (omega arith)

run_succeeds_example :
    ((run policy patient).result ≡ value "ok")
    × ((run policy patient).calls ≡ 3)
    × (length (run policy patient).delays + 1 ≡ 3)
run_succeeds_example =
    run_succeeds policy patient 3 "ok" (omega arith) (omega arith) goes_on refl refl

abbrev strict : Task ℕ String
strict = record patient { is_retryable = λ e. not (e == 2) }

run-strict : (run policy strict).result ≡ raised 2
unfolding run attempt_once
run-strict = refl

run_raises_example : GivesUp policy strict 2 (run policy strict).calls
run_raises_example = run_raises policy strict 2 run-strict

abbrev answer : Fields
answer = field "input_text" (str "…") (
    field "is_hate_speech" (bool true) (
      field "categories" (arr (cons (str "gender") nil)) (
        field "target_group" (str "여성") (
          field "hate_type" (str "모욕") (
            field "reasoning" (str "비하 표현이다") (
              field "similar_cases_used" (arr nil)
                (field "definition_docs_used" (arr nil) end)))))))

answer_valid : (validate_fields answer).valid ≡ true
unfolding validate_fields get_field has_hangul
answer_valid = refl

validate_fields_lem_example : ((validate_fields answer).valid ≡ true) ↔ IsAcceptable answer
validate_fields_lem_example = validate_fields_lem answer

abbrev item_one : AnalysisItem
item_one = record { source_id = 1; source_type = SourceType.comment; text = "첫 댓글" }

abbrev item_two : AnalysisItem
item_two = record { source_id = 2; source_type = SourceType.comment; text = "둘째 댓글" }

abbrev classify_all : AnalysisItem → Classified
classify_all item = outcome (record {
  source_id = item.source_id;
  status = ResultStatus.failed;
  result_values = no_values;
  usage = record { input_tokens = none; output_tokens = none };
  validation_attempts = 1;
})

abbrev round_of_one : Round
round_of_one = record {
  stop_first = false;
  stop_time = 0;
  check_time = 5;
  done = record { position = 0; stored = true; logged = true; stop = false } ∷ [];
  beaten = true;
  stop_second = false;
  stop_second_time = 0;
}

abbrev two_items : List AnalysisItem
two_items = item_one ∷ item_two ∷ []

abbrev two_rounds : List Round
two_rounds = round_of_one ∷ round_of_one ∷ []

run_parallel_finished_example :
    IsDone 1 two_items (run_parallel classify_all 30 1 false two_items two_rounds).1
unfolding run_parallel
run_parallel_finished_example =
    run_parallel_finished classify_all 30 1 false two_items two_rounds (omega arith) refl
