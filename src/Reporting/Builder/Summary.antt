-- ===== src/Reporting/Builder/Summary.antt =====
-- What the numbers and the selected comments of a report mean.
use hate_speech_rag_service.Common.{
  ℕ, ◌+◌, ◌≤◌, String, true, false, Option, List, [], ◌∷◌, ◌==◌, string_Eq, ◌≡◌, ◌⊎◌, if◌then◌else◌,
  filter, count, length, All, Any,
}
use hate_speech_rag_service.Db.Results.{AnalysisResult}
use hate_speech_rag_service.Reporting.Network.{is_hateful}
use hate_speech_rag_service.Reporting.Builder.{
  existing, mentioned, AnalysisSummary, Row, rank, ranks_before,
}

-- What the entries of a key add up to.
unfoldable pub entries_of : String → List (String × ℕ) → ℕ
entries_of key [] = 0
entries_of key ((k, n) ∷ rest) =
    let others = entries_of key rest in if k == key then n + others else others

-- The items are divided into the succeeded, the failed and the missing ones, and each category is
-- counted as often as the results name it.
pub record IsTrue (results : List (Option AnalysisResult)) (s : AnalysisSummary) : Type 0 where
  pub divided : s.succeeded + s.failed + s.missing ≡ length results
  pub all : s.total ≡ length results
  pub hateful : s.hate_speech_count ≤ s.succeeded + s.failed
  pub counted :
      (category : String)
      → entries_of category s.category_distribution
        ≡ count (λ k. k == category) (mentioned (existing results))

-- No row ranks before one that it stands behind.
abbrev IsSorted : List Row → Type 0
IsSorted [] = Unit
IsSorted (row ∷ rest) = All (λ r. ranks_before (rank row) (rank r) ≡ false) rest × IsSorted rest

-- A row is among the chosen ones, or ranks before none of them.
abbrev pub IsPlaced : List Row → Row → Type 0
IsPlaced chosen row =
    Any (λ c. c ≡ row) chosen ⊎ All (λ c. ranks_before (rank c) (rank row) ≡ false) chosen

-- The best hateful rows, at most as many as the limit says.
pub record AreBest (rows : List Row) (limit : ℕ) (chosen : List Row) : Type 0 where
  pub bounded : length chosen ≤ limit
  pub hateful : All (λ r. is_hateful r.1 ≡ true) chosen
  pub best : All (IsPlaced chosen) (filter (λ r. is_hateful r.1) rows)
