-- ===== src/Analysis/Models.antt =====
-- The values that the parts of the analysis exchange (app/analysis/models.py).
use hate_speech_rag_service.Common.{ℕ, Bool, Option, String, List}
use hate_speech_rag_service.Db.Results.{ResultStatus, ResultValues}

pub data SourceType : Type 0 where
  comment reply script_segment : SourceType

pub record AnalysisItem : Type 0 where
  pub source_id : ℕ
  pub source_type : SourceType
  pub text : String

-- `usage` is a dictionary with two keys in the source, each of which may be missing.
pub record Usage : Type 0 where
  pub input_tokens : Option ℕ
  pub output_tokens : Option ℕ

pub record AnalysisOutcome : Type 0 where
  pub source_id : ℕ
  pub status : ResultStatus
  pub result_values : ResultValues
  pub usage : Usage
  pub validation_attempts : ℕ

pub record StepAttemptContext : Type 0 where
  pub job_id : ℕ
  pub step_id : ℕ
  pub step_key : String
  pub run_id : ℕ
  pub expected_attempt : ℕ

-- Distances are whole millionths.
pub record DefinitionSearchResult : Type 0 where
  pub doc_id : String
  pub chunk_text : String
  pub source_id : String
  pub source_title : String
  pub retrieval_tags : List String
  pub related_categories : List String
  pub distance : Option ℕ

pub record ExampleSearchResult : Type 0 where
  pub doc_id : String
  pub text : String
  pub source_dataset : String
  pub source_split : String
  pub license_tier : String
  pub mapped_categories : List String
  pub is_hate_speech : Bool
  pub distance : Option ℕ

pub record RetrievalBundle : Type 0 where
  pub taxonomy : List DefinitionSearchResult
  pub authoritative : List DefinitionSearchResult
  pub examples : List ExampleSearchResult
  pub failures : List String
