-- ===== src/Db/Content.antt =====
-- The tables of collected content in app/db/models.py: video metadata, comments, transcripts.
use hate_speech_rag_service.Common.{ℕ, Bool, Option, String, List}
use hate_speech_rag_service.Common.Json.{Json, JsonDict}

pub record VideoMetadataSnapshot : Type 0 where
  pub id : ℕ
  pub job_id : ℕ
  pub youtube_video_id : String
  pub youtube_channel_id : Option String
  pub title : Option String
  pub channel_title : Option String
  pub published_at : Option ℕ
  pub category_id : Option String
  pub duration_seconds : Option ℕ
  pub view_count : Option ℕ
  pub like_count : Option ℕ
  pub comment_count : Option ℕ
  pub made_for_kids : Option Bool
  pub tags : Option (List String)
  pub description : Option String
  pub thumbnail_url : Option String
  pub raw_payload : Option Json
  pub collected_at : ℕ

pub record CommentSnapshot : Type 0 where
  pub id : ℕ
  pub job_id : ℕ
  pub youtube_video_id : String
  pub youtube_comment_id : String
  pub parent_youtube_comment_id : Option String
  pub parent_comment_snapshot_id : Option ℕ
  pub is_reply : Bool
  pub reply_depth : ℕ
  pub author_display_name : Option String
  pub author_channel_id : Option String
  pub text_display : Option String
  pub text_original : Option String
  pub like_count : Option ℕ
  pub reply_count : Option ℕ
  pub published_at : Option ℕ
  pub updated_at : Option ℕ
  pub raw_payload : Option Json
  pub collected_at : ℕ

pub data TranscriptStatus : Type 0 where
  succeeded not_available failed : TranscriptStatus

pub record TranscriptSnapshot : Type 0 where
  pub id : ℕ
  pub job_id : ℕ
  pub youtube_video_id : String
  pub language_code : Option String
  pub is_auto_generated : Option Bool
  pub source_type : String
  pub source_uri : Option String
  pub raw_text : Option String
  pub raw_payload : Option JsonDict
  pub status : TranscriptStatus
  pub error_code : Option String
  pub collected_at : ℕ

-- The two offsets are decimals in the source; here they are whole milliseconds.
pub record TranscriptSegment : Type 0 where
  pub id : ℕ
  pub transcript_snapshot_id : ℕ
  pub segment_index : ℕ
  pub start_seconds : Option ℕ
  pub end_seconds : Option ℕ
  pub text : String
  pub token_count : Option ℕ
  pub created_at : ℕ
