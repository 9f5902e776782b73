-- ===== src/Collectors/Comments.antt =====
-- CommentCollector of app/collectors/comments.py. The client's iterator gives its records in order and
-- may end with an error. The dictionaries `existing` and `parent_ids` always hold the comments of the
-- job that the session holds, so a lookup in them is one among the rows.
pub mod Unique
use hate_speech_rag_service.Common.{
  ℕ, suc, String, Bool, true, false, ◌&&◌, Option, none, some, List, [], ◌∷◌, ◌++◌, ◌==◌, nat_Eq,
  string_Eq, if◌then◌else◌, or_else, is_some, update_where,
}
use hate_speech_rag_service.Common.Json.{Json}
use hate_speech_rag_service.Common.Errors.{DomainError, Result, ok, error}
use hate_speech_rag_service.Db.JobRows.{AnalysisJob}
use hate_speech_rag_service.Db.Content.{CommentSnapshot}
use hate_speech_rag_service.Db.Database.{Database}

-- CommentRecord of app/external/youtube.py.
pub record CommentRecord : Type 0 where
  pub youtube_comment_id : String
  pub parent_youtube_comment_id : Option String
  pub author_display_name : Option String
  pub author_channel_id : Option String
  pub text_display : String
  pub text_original : String
  pub like_count : ℕ
  pub reply_count : ℕ
  pub published_at : Option ℕ
  pub updated_at : Option ℕ
  pub raw_payload : Json

-- `record.is_reply`
abbrev pub is_reply_record : CommentRecord → Bool
is_reply_record r = is_some r.parent_youtube_comment_id

abbrev pub is_comment_of : ℕ → String → CommentSnapshot → Bool
is_comment_of job_id youtube_id row = row.job_id == job_id && row.youtube_comment_id == youtube_id

-- The last row of a comment, which the dictionary keeps.
unfoldable pub snapshot_of : ℕ → String → List CommentSnapshot → Option CommentSnapshot
snapshot_of job_id youtube_id [] = none
snapshot_of job_id youtube_id (row ∷ rows) =
    or_else (snapshot_of job_id youtube_id rows)
      (if is_comment_of job_id youtube_id row then some row else none)

abbrev pub id_of : Option CommentSnapshot → Option ℕ
id_of none = none
id_of (some row) = some row.id

-- `parent_ids.get(record.parent_youtube_comment_id)`
unfoldable pub parent_id : ℕ → Option String → List CommentSnapshot → Option ℕ
unfolding snapshot_of
parent_id job_id none rows = none
parent_id job_id (some youtube_id) rows = id_of (snapshot_of job_id youtube_id rows)

abbrev pub fill : CommentRecord → Option ℕ → CommentSnapshot → CommentSnapshot
fill r parent row = record row {
  parent_youtube_comment_id = r.parent_youtube_comment_id;
  parent_comment_snapshot_id = parent;
  is_reply = is_reply_record r;
  reply_depth = if is_reply_record r then 1 else 0;
  author_display_name = r.author_display_name;
  author_channel_id = r.author_channel_id;
  text_display = some r.text_display;
  text_original = some r.text_original;
  like_count = some r.like_count;
  reply_count = some r.reply_count;
  published_at = r.published_at;
  updated_at = r.updated_at;
  raw_payload = some r.raw_payload;
}

abbrev pub new_snapshot : AnalysisJob → CommentRecord → Database → CommentSnapshot
new_snapshot job r db = record {
  id = db.next_id;
  job_id = job.id;
  youtube_video_id = job.youtube_video_id;
  youtube_comment_id = r.youtube_comment_id;
  parent_youtube_comment_id = none;
  parent_comment_snapshot_id = none;
  is_reply = false;
  reply_depth = 0;
  author_display_name = none;
  author_channel_id = none;
  text_display = none;
  text_original = none;
  like_count = none;
  reply_count = none;
  published_at = none;
  updated_at = none;
  raw_payload = none;
  collected_at = db.now;
}

-- One record: its row, and the database.
abbrev pub store_at :
    AnalysisJob
    → CommentRecord
    → Option ℕ
    → Option CommentSnapshot
    → Database
    → CommentSnapshot × Database
store_at job r parent none db =
    let row = fill r parent (new_snapshot job r db) in
    (
      row,
      record db { comment_snapshots = db.comment_snapshots ++ row ∷ []; next_id = suc db.next_id },
    )
store_at job r parent (some row) db = (
  fill r parent row,
  record db {
    comment_snapshots =
        update_where (λ other. other.id == row.id) (fill r parent) db.comment_snapshots;
  },
)

unfoldable pub store_record : AnalysisJob → CommentRecord → Database → CommentSnapshot × Database
unfolding parent_id snapshot_of
store_record job r db =
    store_at job r (parent_id job.id r.parent_youtube_comment_id db.comment_snapshots)
      (snapshot_of job.id r.youtube_comment_id db.comment_snapshots) db

unfoldable pub store_all :
    AnalysisJob → List CommentRecord → Database → List CommentSnapshot × Database
unfolding store_record
store_all job [] db = ([], db)
store_all job (r ∷ rs) db =
    let (row, stored) = store_record job r db in
    let (rows, after) = store_all job rs stored in (row ∷ rows, after)

-- What `iter_comments` yields, and the error that it ends with, if any.
pub record Yielded : Type 0 where
  pub records : List CommentRecord
  pub failure : Option DomainError

-- The rows that are stored before an error stay in the session.
unfoldable pub collect_all :
    (String → Yielded)
    → AnalysisJob
    → Database
    → Result DomainError (List CommentSnapshot) × Database
unfolding store_all
collect_all iter_comments job db =
    let yielded = iter_comments job.youtube_video_id in
    let (rows, after) = store_all job yielded.records db in
    (elim yielded.failure [ none ↦ ok rows | some e ↦ error e ], after)
