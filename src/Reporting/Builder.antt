-- ===== src/Reporting/Builder.antt =====
-- ReportBuilder of app/reporting/builder.py. A comment and a segment have at most one result in a run,
-- so the outer joins are lookups. `iso` is `datetime.isoformat`.
pub mod Summary
use Prim.Native.String
use Prim.Native.Char.{Char, code}
use hate_speech_rag_service.Common.{
  ℕ, suc, ◌+◌, ◌-◌, String, Bool, true, false, not, ◌&&◌, ◌||◌, Option, none, some, List, [], ◌∷◌,
  ◌++◌, ◌==◌, nat_Eq, string_Eq, if◌then◌else◌, ltb, nat_eq, filter, find?, map, count, length,
  is_some, take, or_else, any,
}
use hate_speech_rag_service.Common.Json.{
  Json, Fields, Items, JsonDict, null, bool, int, str, arr, obj, nil, cons, end, field,
}
use hate_speech_rag_service.Common.Errors.{DomainError, domain_error, Result, ok, error}
use hate_speech_rag_service.Db.JobRows.{
  JobStatus, JobStep, StepStatus, AnalysisJob, step_incomplete,
}
use hate_speech_rag_service.Db.Content.{VideoMetadataSnapshot, CommentSnapshot, TranscriptSegment}
use hate_speech_rag_service.Db.Results.{
  AnalysisRun, AnalysisResult, CommentNetwork, ReportSnapshot, is_succeeded, is_failed,
}
use hate_speech_rag_service.Db.Database.{Database}
use hate_speech_rag_service.Analysis.ResultStore.{is_segment_of}
use hate_speech_rag_service.Reporting.Network.{is_hateful, network_rows}

-- The order of Python's texts, by code points.
unfoldable pub text_less : String → String → Bool
text_less a String.[] = false
text_less String.[] (String.◌∷◌ d t) = true
text_less (String.◌∷◌ c s) (String.◌∷◌ d t) =
    ltb (code c) (code d) || nat_eq (code c) (code d) && text_less s t

-- A `Counter`, in the order in which its keys came.
unfoldable pub count_key : String → List (String × ℕ) → List (String × ℕ)
count_key key [] = (key, 1) ∷ []
count_key key ((k, n) ∷ rest) =
    let later = count_key key rest in if k == key then (k, suc n) ∷ rest else (k, n) ∷ later

unfoldable pub count_keys : List String → List (String × ℕ) → List (String × ℕ)
unfolding count_key
count_keys [] counts = counts
count_keys (key ∷ keys) counts = count_keys keys (count_key key counts)

unfoldable pub insert_key : String × ℕ → List (String × ℕ) → List (String × ℕ)
unfolding text_less
insert_key entry [] = entry ∷ []
insert_key entry (e ∷ rest) =
    let later = insert_key entry rest in
    if text_less entry.0 e.0 then entry ∷ e ∷ rest else e ∷ later

unfoldable pub sort_keys : List (String × ℕ) → List (String × ℕ)
unfolding insert_key
sort_keys [] = []
sort_keys (entry ∷ rest) = insert_key entry (sort_keys rest)

-- The results that are not None.
unfoldable pub existing : List (Option AnalysisResult) → List AnalysisResult
existing [] = []
existing (none ∷ rest) = existing rest
existing (some result ∷ rest) = result ∷ existing rest

abbrev pub or_empty : Option (List String) → List String
or_empty none = []
or_empty (some xs) = xs

unfoldable pub mentioned : List AnalysisResult → List String
mentioned [] = []
mentioned (result ∷ rest) =
    filter (λ category. not (category == "unclassified")) (or_empty result.values.categories)
    ++ mentioned rest

pub record AnalysisSummary : Type 0 where
  pub total : ℕ
  pub succeeded : ℕ
  pub failed : ℕ
  pub missing : ℕ
  pub hate_speech_count : ℕ
  pub category_distribution : List (String × ℕ)

unfoldable pub analysis_summary : List (Option AnalysisResult) → AnalysisSummary
unfolding existing mentioned count_keys sort_keys
analysis_summary results = record {
  total = length results;
  succeeded = count (λ result. is_succeeded result.status) (existing results);
  failed = count (λ result. is_failed result.status) (existing results);
  missing = length results - length (existing results);
  hate_speech_count = count (λ result. is_hateful (some result)) (existing results);
  category_distribution = sort_keys (count_keys (mentioned (existing results)) []);
}

abbrev pub Row : Type 0
Row = CommentSnapshot × Option AnalysisResult

-- `(like_count or 0, published_at or collected_at)`
abbrev pub rank : Row → ℕ × ℕ
rank (comment, _) = (
  elim comment.like_count [ none ↦ 0 | some n ↦ n ],
  elim comment.published_at [ none ↦ comment.collected_at | some at ↦ at ],
)

abbrev pub ranks_before : ℕ × ℕ → ℕ × ℕ → Bool
ranks_before (a, b) (c, d) = ltb a c || nat_eq a c && ltb b d

-- A stable sort from the highest rank down.
unfoldable pub insert_rank : Row → List Row → List Row
insert_rank row [] = row ∷ []
insert_rank row (other ∷ rest) =
    let later = insert_rank row rest in
    if ranks_before (rank row) (rank other) then other ∷ later else row ∷ other ∷ rest

unfoldable pub sort_rank : List Row → List Row
unfolding insert_rank
sort_rank [] = []
sort_rank (row ∷ rest) = insert_rank row (sort_rank rest)

unfoldable pub representative_comments : List Row → ℕ → List Row
unfolding sort_rank
representative_comments rows limit = take limit (sort_rank (filter (λ row. is_hateful row.1) rows))
