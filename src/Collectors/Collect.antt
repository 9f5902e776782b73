-- ===== src/Collectors/Collect.antt =====
-- TranscriptCollector.collect of app/collectors/transcript.py; `fetch` is the provider.
use hate_speech_rag_service.Common.{
  ℕ, suc, ◌+◌, String, Bool, false, not, ◌&&◌, none, some, List, [], ◌∷◌, ◌++◌, ◌==◌, string_Eq,
  if◌then◌else◌, filter, map, length,
}
use hate_speech_rag_service.Common.Json.{int, str}
use hate_speech_rag_service.Common.Errors.{DomainError, Result, ok, error}
use hate_speech_rag_service.Db.JobRows.{AnalysisJob}
use hate_speech_rag_service.Db.Content.{TranscriptStatus, TranscriptSnapshot, TranscriptSegment}
use hate_speech_rag_service.Db.Database.{Database}
use hate_speech_rag_service.Collectors.Transcript.{
  TranscriptItem, is_space, strip, join, segments, segment,
}

pub record TranscriptData : Type 0 where
  pub language_code : String
  pub is_generated : Bool
  pub items : List TranscriptItem

-- `len(text.split())`, after a space or a word.
unfoldable pub words : Bool → String → ℕ
words in_word String.[] = 0
words in_word (String.◌∷◌ c s) =
    let later = words (not (is_space c)) s in
    if not in_word && not (is_space c) then suc later else later

-- The rows of the segments, numbered from `index`. No segment is empty.
unfoldable pub segment_rows : ℕ → ℕ → ℕ → ℕ → List (List TranscriptItem) → List TranscriptSegment
unfolding segment words
segment_rows now id snapshot_id index [] = []
segment_rows now id snapshot_id index ([] ∷ rest) = segment_rows now id snapshot_id index rest
segment_rows now id snapshot_id index ((item ∷ items) ∷ rest) =
    let ((start, end), text) = segment item items in
    record {
      id = id;
      transcript_snapshot_id = snapshot_id;
      segment_index = index;
      start_seconds = some start;
      end_seconds = some end;
      text = text;
      token_count = some (words false text);
      created_at = now;
    }
    ∷ segment_rows now (suc id) snapshot_id (suc index) rest

abbrev pub failed_snapshot : AnalysisJob → DomainError → Database → TranscriptSnapshot
failed_snapshot job e db = record {
  id = db.next_id;
  job_id = job.id;
  youtube_video_id = job.youtube_video_id;
  language_code = none;
  is_auto_generated = none;
  source_type = "public_caption";
  source_uri = none;
  raw_text = none;
  raw_payload = none;
  status =
      if e.code == "CAPTION_NOT_AVAILABLE"
      then TranscriptStatus.not_available
      else TranscriptStatus.failed;
  error_code = some e.code;
  collected_at = db.now;
}

unfoldable pub fetched_snapshot : AnalysisJob → TranscriptData → Database → TranscriptSnapshot
unfolding join strip
fetched_snapshot job caption db = record {
  id = db.next_id;
  job_id = job.id;
  youtube_video_id = job.youtube_video_id;
  language_code = some caption.language_code;
  is_auto_generated = some caption.is_generated;
  source_type = "public_caption";
  source_uri = none;
  raw_text =
      some (join (filter (λ text. not (text == "")) (map (λ item. strip item.text) caption.items)));
  raw_payload = some (
      ("item_count", int (length caption.items))
      ∷ ("segmentation", str "sentence_boundary_with_duration_char_fallback_v1")
      ∷ []);
  status = TranscriptStatus.succeeded;
  error_code = none;
  collected_at = db.now;
}

abbrev pub add_snapshot : TranscriptSnapshot → Database → Database
add_snapshot snapshot db = record db {
  transcript_snapshots = db.transcript_snapshots ++ snapshot ∷ [];
  next_id = suc db.next_id;
}

-- The failed snapshot stays in the session when the error is raised again.
unfoldable pub collect :
    (max_segment_chars max_segment_seconds : ℕ)
    → (String → Result DomainError TranscriptData)
    → AnalysisJob
    → Database
    → Result DomainError (TranscriptSnapshot × List TranscriptSegment) × Database
unfolding segments segment_rows fetched_snapshot
collect max_segment_chars max_segment_seconds fetch job db = elim (fetch job.youtube_video_id) [
  | error e ↦ (error e, add_snapshot (failed_snapshot job e db) db)
  | ok caption ↦
      let snapshot = fetched_snapshot job caption db in
      let added = add_snapshot snapshot db in
      let rows =
        segment_rows added.now added.next_id snapshot.id 0
          (segments max_segment_chars max_segment_seconds [] caption.items) in
      (
        ok (snapshot, rows),
        record added {
          transcript_segments = added.transcript_segments ++ rows;
          next_id = added.next_id + length rows;
        },
      )
]
