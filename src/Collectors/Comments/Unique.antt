-- ===== src/Collectors/Comments/Unique.antt =====
-- A comment has one row in its job, however often it is collected.
use hate_speech_rag_service.Common.{
  ℕ, suc, ◌+◌, String, Bool, true, false, ◌&&◌, ◌||◌, Option, none, some, List, [], ◌∷◌, ◌++◌, ◌==◌,
  nat_Eq, string_Eq, ◌≡◌, refl, ap, sym, ◌∙◌, arith, if◌then◌else◌, any, any-append, count, is_some,
  update_where, or_else, ==_refl, ==_true, Bool-cases, inl, inr,
}
use hate_speech_rag_service.Db.JobRows.{AnalysisJob}
use hate_speech_rag_service.Db.Content.{CommentSnapshot}
use hate_speech_rag_service.Db.Database.{Database}
use hate_speech_rag_service.Collectors.Comments.{
  CommentRecord, is_comment_of, snapshot_of, parent_id, fill, new_snapshot, store_at, store_record,
  store_all, collect_all, Yielded,
}

-- Whether the job has a row of the comment.
abbrev pub is_known : ℕ → String → Database → Bool
is_known job_id youtube_id db = any (is_comment_of job_id youtube_id) db.comment_snapshots

-- One row for each known comment of the job.
abbrev pub IsUnique : ℕ → Database → Type 0
IsUnique job_id db =
    (youtube_id : String)
    → count (is_comment_of job_id youtube_id) db.comment_snapshots
      ≡ (if is_known job_id youtube_id db then 1 else 0)

is_some-snapshot_of :
    (job_id : ℕ) (youtube_id : String) (rows : List CommentSnapshot)
    → is_some (snapshot_of job_id youtube_id rows) ≡ any (is_comment_of job_id youtube_id) rows
unfolding snapshot_of
is_some-snapshot_of job_id youtube_id [] = refl
is_some-snapshot_of job_id youtube_id (row ∷ rows) =
    go (snapshot_of job_id youtube_id rows) (is_comment_of job_id youtube_id row)
      (is_some-snapshot_of job_id youtube_id rows)
  where
    go :
        (o : Option CommentSnapshot) (b : Bool)
        → is_some o ≡ any (is_comment_of job_id youtube_id) rows
        → is_some (or_else o (if b then some row else none))
          ≡ (b || any (is_comment_of job_id youtube_id) rows)
    go none true e = refl
    go none false e = e
    go (some found) true e = refl
    go (some found) false e = e

count-append :
    (p : CommentSnapshot → Bool) (rows : List CommentSnapshot) (row : CommentSnapshot)
    → count p (rows ++ row ∷ []) ≡ count p rows + (if p row then 1 else 0)
count-append p [] row = ground arith
count-append p (r ∷ rows) row = ground (arith, count-append p rows row)

count-update_where :
    (job_id : ℕ) (youtube_id : String) (q : CommentSnapshot → Bool) (r : CommentRecord)
    (parent : Option ℕ) (rows : List CommentSnapshot)
    → count (is_comment_of job_id youtube_id) (update_where q (fill r parent) rows)
      ≡ count (is_comment_of job_id youtube_id) rows
count-update_where job_id youtube_id q r parent [] = refl
count-update_where job_id youtube_id q r parent (row ∷ rows) =
    go (q row) (count-update_where job_id youtube_id q r parent rows)
  where
    go :
        (b : Bool)
        → count (is_comment_of job_id youtube_id) (update_where q (fill r parent) rows)
          ≡ count (is_comment_of job_id youtube_id) rows
        → count
            (is_comment_of job_id youtube_id)
            ((if b then fill r parent row else row) ∷ update_where q (fill r parent) rows)
          ≡ count (is_comment_of job_id youtube_id) (row ∷ rows)
    go true e = ap (λ n. if is_comment_of job_id youtube_id row then suc n else n) e
    go false e = ap (λ n. if is_comment_of job_id youtube_id row then suc n else n) e

any-update_where :
    (job_id : ℕ) (youtube_id : String) (q : CommentSnapshot → Bool) (r : CommentRecord)
    (parent : Option ℕ) (rows : List CommentSnapshot)
    → any (is_comment_of job_id youtube_id) (update_where q (fill r parent) rows)
      ≡ any (is_comment_of job_id youtube_id) rows
any-update_where job_id youtube_id q r parent [] = refl
any-update_where job_id youtube_id q r parent (row ∷ rows) =
    go (q row) (any-update_where job_id youtube_id q r parent rows)
  where
    go :
        (b : Bool)
        → any (is_comment_of job_id youtube_id) (update_where q (fill r parent) rows)
          ≡ any (is_comment_of job_id youtube_id) rows
        → any
            (is_comment_of job_id youtube_id)
            ((if b then fill r parent row else row) ∷ update_where q (fill r parent) rows)
          ≡ any (is_comment_of job_id youtube_id) (row ∷ rows)
    go true e = ap (λ x. is_comment_of job_id youtube_id row || x) e
    go false e = ap (λ x. is_comment_of job_id youtube_id row || x) e

-- What storing one record does to the rows of a comment.
pub record Stores (job_id : ℕ) (r : CommentRecord) (db after : Database) : Type 0 where
  pub known :
      (youtube_id : String)
      → is_known job_id youtube_id after
        ≡ (is_known job_id youtube_id db || r.youtube_comment_id == youtube_id)
  pub unique : IsUnique job_id after

-- The case of a comment that has a row, where its key is known.
known_already :
    (job_id : ℕ) (r : CommentRecord) (db : Database) (youtube_id : String)
    → is_known job_id r.youtube_comment_id db ≡ true
    → is_known job_id youtube_id db
      ≡ (is_known job_id youtube_id db || r.youtube_comment_id == youtube_id)
known_already job_id r db youtube_id h = elim (Bool-cases (r.youtube_comment_id == youtube_id)) [
  | inl e ↦
      ground
        (arith, h, e, ap (λ i. is_known job_id i db) (==_true r.youtube_comment_id youtube_id e))
  | inr e ↦ ground (arith, e)
]

new_known :
    (known of_job same : Bool)
    → of_job ≡ true
    → (known || (of_job && same || false)) ≡ (known || same)
new_known true of_job same h = refl
new_known false of_job same h = ground (arith, h)

new_counted :
    (known of_job same : Bool)
    → of_job ≡ true
    → (same && known) ≡ false
    → (if known then 1 else 0) + (if of_job && same then 1 else 0)
      ≡ (if known || (of_job && same || false) then 1 else 0)
new_counted true of_job true h k = absurd (ground arith)
new_counted true of_job false h k = ground (arith, h)
new_counted false of_job same h k = ground (arith, h)

absent :
    (job_id : ℕ) (new youtube_id : String) (db : Database)
    → is_known job_id new db ≡ false
    → (new == youtube_id && is_known job_id youtube_id db) ≡ false
absent job_id new youtube_id db h = elim (Bool-cases (new == youtube_id)) [
  | inl e ↦ ground (arith, h, e, ap (λ i. is_known job_id i db) (==_true new youtube_id e))
  | inr e ↦ ground (arith, e)
]

store_at-Stores :
    (job : AnalysisJob) (r : CommentRecord) (parent : Option ℕ) (o : Option CommentSnapshot)
    (db : Database)
    → is_some o ≡ is_known job.id r.youtube_comment_id db
    → IsUnique job.id db
    → Stores job.id r db (store_at job r parent o db).1
store_at-Stores job r parent none db found unique =
    let row = fill r parent (new_snapshot job r db) in
    record {
      known = λ youtube_id.
          any-append (is_comment_of job.id youtube_id) db.comment_snapshots (row ∷ [])
          ∙ new_known (is_known job.id youtube_id db) (job.id == job.id)
              (r.youtube_comment_id == youtube_id) (==_refl job.id);
      unique = λ youtube_id.
          count-append (is_comment_of job.id youtube_id) db.comment_snapshots row
          ∙ ap (λ n. n + (if is_comment_of job.id youtube_id row then 1 else 0)) (unique youtube_id)
          ∙ new_counted (is_known job.id youtube_id db) (job.id == job.id)
              (r.youtube_comment_id == youtube_id) (==_refl job.id)
              (absent job.id r.youtube_comment_id youtube_id db (sym found))
          ∙ ap (λ b. if b then 1 else 0)
              (sym (any-append (is_comment_of job.id youtube_id) db.comment_snapshots (row ∷ [])));
    }
store_at-Stores job r parent (some row) db found unique =
    let same : (youtube_id : String)
        → is_known job.id youtube_id (store_at job r parent (some row) db).1
          ≡ is_known job.id youtube_id db =
      λ youtube_id.
        any-update_where job.id youtube_id (λ other. other.id == row.id) r parent
          db.comment_snapshots in
    record {
      known = λ youtube_id. same youtube_id ∙ known_already job.id r db youtube_id (sym found);
      unique = λ youtube_id.
          count-update_where job.id youtube_id (λ other. other.id == row.id) r parent
            db.comment_snapshots
          ∙ unique youtube_id
          ∙ ap (λ b. if b then 1 else 0) (sym (same youtube_id));
    }

store_record-Stores :
    (job : AnalysisJob) (r : CommentRecord) (db : Database)
    → IsUnique job.id db
    → Stores job.id r db (store_record job r db).1
unfolding store_record
store_record-Stores job r db unique =
    store_at-Stores job r (parent_id job.id r.parent_youtube_comment_id db.comment_snapshots)
      (snapshot_of job.id r.youtube_comment_id db.comment_snapshots) db
      (is_some-snapshot_of job.id r.youtube_comment_id db.comment_snapshots) unique

-- Whether a comment is among the records.
abbrev pub is_yielded : String → List CommentRecord → Bool
is_yielded youtube_id = any (λ r. r.youtube_comment_id == youtube_id)

or_assoc : (a b c : Bool) → ((a || b) || c) ≡ (a || (b || c))
or_assoc a b c = ground arith

store_all-IsUnique :
    (job : AnalysisJob) (rs : List CommentRecord) (db : Database)
    → IsUnique job.id db
    → (youtube_id : String)
    → count (is_comment_of job.id youtube_id) (store_all job rs db).1.comment_snapshots
      ≡ (if is_known job.id youtube_id db || is_yielded youtube_id rs then 1 else 0)
unfolding store_all
store_all-IsUnique job [] db unique youtube_id = ground (arith, unique youtube_id)
store_all-IsUnique job (r ∷ rs) db unique youtube_id =
    let stored : Stores job.id r db (store_record job r db).1 =
      store_record-Stores job r db unique in
    store_all-IsUnique job rs (store_record job r db).1 stored.unique youtube_id
    ∙ ap (λ b. if b || is_yielded youtube_id rs then 1 else 0) (stored.known youtube_id)
    ∙ ap (λ b. if b then 1 else 0)
        (or_assoc (is_known job.id youtube_id db) (r.youtube_comment_id == youtube_id)
          (is_yielded youtube_id rs))

-- Where no comment of the job has two rows, then after a collection, one that ends with an error too,
-- the job has exactly one row for each comment that it had or that came, and none for any other: so a
-- repeated collection adds no second row.
pub collect_all-IsUnique :
    (iter_comments : String → Yielded) (job : AnalysisJob) (db : Database) (youtube_id : String)
    → IsUnique job.id db
    → count (is_comment_of job.id youtube_id) (collect_all iter_comments job db).1.comment_snapshots
      ≡ (if is_known job.id youtube_id db
            || is_yielded youtube_id (iter_comments job.youtube_video_id).records
          then 1
          else 0)
unfolding collect_all
collect_all-IsUnique iter_comments job db youtube_id unique =
    store_all-IsUnique job (iter_comments job.youtube_video_id).records db unique youtube_id
