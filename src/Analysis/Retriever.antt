-- ===== src/Analysis/Retriever.antt =====
-- DualVectorRetriever.retrieve of app/analysis/retriever.py. `embed` is the embedding client, and a
-- query is that of a collection of the vector database with the reading of its rows; it gives `none`
-- where it raises.
use hate_speech_rag_service.Common.{ℕ, String, Option, none, some, List, [], ◌∷◌, ◌++◌}
use hate_speech_rag_service.Analysis.Models.{
  DefinitionSearchResult, ExampleSearchResult, RetrievalBundle,
}

-- How the embedding of the query ends.
pub data Embedded (V : Type 0) : Type 0 where
  vector : V → Embedded V
  cancelled failed : Embedded V
  invalid_key : String → Embedded V

abbrev pub found {ℓ} : {A : Type ℓ} → Option (List A) → List A
found none = []
found (some rows) = rows

abbrev pub failure {ℓ} : {A : Type ℓ} → String → Option (List A) → List String
failure name none = name ∷ []
failure name (some rows) = []

module _ {V : Type 0} (embed : String → Embedded V)
    (query_taxonomy query_authoritative : V → ℕ → Option (List DefinitionSearchResult))
    (query_examples : V → ℕ → Option (List ExampleSearchResult)) where
  unfoldable pub search : V → (taxonomy_n authoritative_n example_n : ℕ) → RetrievalBundle
  search v taxonomy_n authoritative_n example_n =
      let taxonomy = query_taxonomy v taxonomy_n in
      let authoritative = query_authoritative v authoritative_n in
      let examples = query_examples v example_n in
      record {
        taxonomy = found taxonomy;
        authoritative = found authoritative;
        examples = found examples;
        failures =
            failure "taxonomy" taxonomy
            ++ failure "authoritative" authoritative
            ++ failure "examples" examples;
      }

  unfoldable pub retrieve :
      String → (taxonomy_n authoritative_n example_n : ℕ) → Embedded RetrievalBundle
  unfolding search
  retrieve query_text taxonomy_n authoritative_n example_n = elim (embed query_text) [
    | vector v ↦ vector (search v taxonomy_n authoritative_n example_n)
    | cancelled ↦ cancelled
    | failed ↦ failed
    | invalid_key provider ↦ invalid_key provider
  ]
