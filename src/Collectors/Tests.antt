-- ===== src/Collectors/Tests.antt =====
-- A small transcript, and the theorems at concrete inputs.
use hate_speech_rag_service.Common.{
  String, none, count, if◌then◌else◌, ◌||◌, List, [], ◌∷◌, ◌≡◌, true, refl, All,
}
use hate_speech_rag_service.Common.Json.{null}
use hate_speech_rag_service.Db.JobRows.{AnalysisJob}
use hate_speech_rag_service.Db.Database.{empty}
use hate_speech_rag_service.Jobs.Repository.{new_job}
use hate_speech_rag_service.Collectors.Comments.{CommentRecord, Yielded, is_comment_of, collect_all}
use hate_speech_rag_service.Collectors.Comments.Unique.{is_known, is_yielded, collect_all-IsUnique}
use hate_speech_rag_service.Collectors.Transcript.{TranscriptItem, segments, ends_sentence}
use hate_speech_rag_service.Collectors.Transcript.Segments.{concat, IsSegment, segments_lem}

abbrev captions : List TranscriptItem
captions =
    record { text = " 안녕하세요. "; start = 0; duration = 2000 }
    ∷ record { text = "오늘은"; start = 2000; duration = 1000 }
    ∷ record { text = "끝"; start = 60000; duration = 1000 }
    ∷ []

a_quote_may_follow : ends_sentence "그래요?\"" ≡ true
unfolding ends_sentence
a_quote_may_follow = refl

three_segments :
    segments 800 45000 [] captions
    ≡ (record { text = " 안녕하세요. "; start = 0; duration = 2000 } ∷ [])
      ∷ (record { text = "오늘은"; start = 2000; duration = 1000 } ∷ [])
      ∷ (record { text = "끝"; start = 60000; duration = 1000 } ∷ [])
      ∷ []
unfolding segments
three_segments = refl

segments_lem_example :
    (concat (segments 800 45000 [] captions) ≡ captions)
    × All (IsSegment 800 45000) (segments 800 45000 [] captions)
segments_lem_example = segments_lem 800 45000 captions

abbrev job : AnalysisJob
job = new_job "dQw4w9WgXcQ" "dQw4w9WgXcQ" none [] empty

abbrev first_comment : CommentRecord
first_comment = record {
  youtube_comment_id = "c1";
  parent_youtube_comment_id = none;
  author_display_name = none;
  author_channel_id = none;
  text_display = "댓글";
  text_original = "댓글";
  like_count = 0;
  reply_count = 0;
  published_at = none;
  updated_at = none;
  raw_payload = null;
}

-- The page repeats its comment.
abbrev repeated : String → Yielded
repeated video_id = record { records = first_comment ∷ first_comment ∷ []; failure = none }

collect_all-IsUnique_example :
    count (is_comment_of 1 "c1") (collect_all repeated job empty).1.comment_snapshots ≡ (
      if is_known 1 "c1" empty || is_yielded "c1" (first_comment ∷ first_comment ∷ [])
      then 1
      else 0)
collect_all-IsUnique_example = collect_all-IsUnique repeated job empty "c1" (λ youtube_id. refl)
