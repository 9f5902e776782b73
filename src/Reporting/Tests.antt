-- ===== src/Reporting/Tests.antt =====
-- A small comment network, and the theorems at concrete inputs.
use hate_speech_rag_service.Common.{
  ℕ, String, true, false, Option, none, some, List, [], ◌∷◌, ◌≡◌, refl, arith, any, ◌==◌, nat_Eq,
  ◌&&◌,
}
use hate_speech_rag_service.Common.Errors.{ok, error}
use hate_speech_rag_service.Db.JobRows.{JobStatus, AnalysisJob}
use hate_speech_rag_service.Db.Content.{VideoMetadataSnapshot}
use hate_speech_rag_service.Db.Results.{AnalysisRun, ReportSnapshot, ReportExport}
use hate_speech_rag_service.Db.Database.{Database, empty}
use hate_speech_rag_service.Jobs.Repository.{new_job}
use hate_speech_rag_service.Reporting.Exports.{create, latest_succeeded, export_error}
use hate_speech_rag_service.Reporting.Exports.Delivery.{
  is_failed_file, latest_succeeded-create, create-failed,
}
use hate_speech_rag_service.Db.Content.{CommentSnapshot}
use hate_speech_rag_service.Reporting.Network.{Row, tally}
use hate_speech_rag_service.Reporting.Network.Balance.{IsBalanced, tally-IsBalanced}

abbrev top_comment : CommentSnapshot
top_comment = record {
  id = 1;
  job_id = 1;
  youtube_video_id = "dQw4w9WgXcQ";
  youtube_comment_id = "c1";
  parent_youtube_comment_id = none;
  parent_comment_snapshot_id = none;
  is_reply = false;
  reply_depth = 0;
  author_display_name = some "first";
  author_channel_id = some "UC1";
  text_display = some "text";
  text_original = some "text";
  like_count = none;
  reply_count = none;
  published_at = none;
  updated_at = none;
  raw_payload = none;
  collected_at = 5;
}

abbrev reply_comment : CommentSnapshot
reply_comment = record top_comment {
  id = 2;
  youtube_comment_id = "c2";
  parent_youtube_comment_id = some "c1";
  is_reply = true;
  author_channel_id = some "UC2";
}

abbrev two_rows : List Row
two_rows = (top_comment, none) ∷ (reply_comment, none) ∷ []

tally-IsBalanced_example : IsBalanced (λ id. "7") two_rows (tally (λ id. "7") two_rows)
tally-IsBalanced_example = tally-IsBalanced (λ id. "7") two_rows

abbrev job : AnalysisJob
job = new_job "dQw4w9WgXcQ" "dQw4w9WgXcQ" (some 3) [] empty

abbrev run : AnalysisRun
run = record {
  id = 20;
  job_id = 1;
  youtube_video_id = "dQw4w9WgXcQ";
  status = JobStatus.running;
  llm_provider = "openai";
  llm_model = "model";
  embedding_provider = "openai";
  embedding_model = "model";
  example_vector_collection = "examples";
  definition_vector_collection = "definitions";
  definition_corpus_version = none;
  retriever_config = [];
  prompt_versions = [];
  started_at = 3;
  finished_at = none;
}

abbrev metadata : VideoMetadataSnapshot
metadata = record {
  id = 8;
  job_id = 1;
  youtube_video_id = "dQw4w9WgXcQ";
  youtube_channel_id = none;
  title = some "title";
  channel_title = none;
  published_at = some 1;
  category_id = none;
  duration_seconds = none;
  view_count = none;
  like_count = none;
  comment_count = some 2;
  made_for_kids = none;
  tags = none;
  description = none;
  thumbnail_url = none;
  raw_payload = none;
  collected_at = 5;
}

abbrev collected : Database
collected = record empty {
  analysis_jobs = job ∷ [];
  video_metadata_snapshots = metadata ∷ [];
  comment_snapshots = top_comment ∷ reply_comment ∷ [];
  analysis_runs = run ∷ [];
  next_id = 30;
}

abbrev report : ReportSnapshot
report = record {
  id = 9;
  analysis_run_id = 20;
  owner_user_id = some 3;
  is_public_sample = true;
  status = JobStatus.succeeded;
  title = "보고서";
  payload = [];
  source_counts = [];
  failure_summary = none;
  created_at = 7;
}

abbrev one_byte : ReportSnapshot → Database → Option (List ℕ)
one_byte r db = some (60 ∷ [])

abbrev raises : ReportSnapshot → Database → Option (List ℕ)
raises r db = none

abbrev digest : List ℕ → String
digest content = "00"

latest_succeeded-create_example :
    (e : ReportExport) × ((create one_byte raises digest report "html" collected).0 ≡ ok e)
    × (e.file_blob ≡ some (60 ∷ []))
    × (latest_succeeded one_byte raises digest 0 report "html"
          (create one_byte raises digest report "html" collected).1
        ≡ some e)
latest_succeeded-create_example =
    latest_succeeded-create one_byte raises digest 0 report "html" (60 ∷ []) collected refl refl
      (omega arith) tt

create-failed_example :
    ((create one_byte raises digest report "xlsx" collected).0 ≡ error export_error)
    × (any
          (λ r. r.id == 30 && is_failed_file r)
          (create one_byte raises digest report "xlsx" collected).1.report_exports
        ≡ true)
    × ((started_at : ℕ) (other : ReportSnapshot) (other_format : String)
        → latest_succeeded one_byte raises digest started_at other other_format
            (create one_byte raises digest report "xlsx" collected).1
          ≡ latest_succeeded one_byte raises digest started_at other other_format collected)
create-failed_example = create-failed one_byte raises digest report "xlsx" collected refl refl
