-- ===== src/Db/Results.antt =====
-- The tables of analysis runs, their results, networks and reports in app/db/models.py.
use hate_speech_rag_service.Common.{ℕ, Bool, true, false, Option, String, List}
use hate_speech_rag_service.Common.Json.{Json, JsonDict}
use hate_speech_rag_service.Db.JobRows.{JobStatus}

pub record AnalysisRun : Type 0 where
  pub id : ℕ
  pub job_id : ℕ
  pub youtube_video_id : String
  pub status : JobStatus
  pub llm_provider : String
  pub llm_model : String
  pub embedding_provider : String
  pub embedding_model : String
  pub example_vector_collection : String
  pub definition_vector_collection : String
  pub definition_corpus_version : Option String
  pub retriever_config : JsonDict
  pub prompt_versions : JsonDict
  pub started_at : ℕ
  pub finished_at : Option ℕ

pub data ResultStatus : Type 0 where
  succeeded failed : ResultStatus

abbrev pub is_succeeded : ResultStatus → Bool
is_succeeded succeeded = true
is_succeeded failed = false

abbrev pub is_failed : ResultStatus → Bool
is_failed succeeded = false
is_failed failed = true

-- The columns that an outcome of the analysis fills (`result_values`).
pub record ResultValues : Type 0 where
  pub is_hate_speech : Option Bool
  pub categories : Option (List String)
  pub target_group : Option String
  pub hate_type : Option String
  pub reasoning : Option String
  pub similar_cases_used : Option Json
  pub definition_docs_used : Option Json
  pub rag_context_status : Option String
  pub prompt_version : Option String
  pub model_name : Option String
  pub raw_response : Option Json
  pub error_code : Option String
  pub error_message : Option String

-- A row of `comment_analysis_results` or of `script_analysis_results`: `source_id` is the comment
-- snapshot or the transcript segment.
pub record AnalysisResult : Type 0 where
  pub id : ℕ
  pub analysis_run_id : ℕ
  pub source_id : ℕ
  pub status : ResultStatus
  pub values : ResultValues
  pub created_at : ℕ

-- `Decimal(a) / Decimal(b)` as the pair of the two numbers.
pub record Ratio : Type 0 where
  pub numerator : ℕ
  pub denominator : ℕ

pub record CommentNetwork : Type 0 where
  pub id : ℕ
  pub analysis_run_id : ℕ
  pub graph_type : String
  pub directed : Bool
  pub status : JobStatus
  pub summary : JsonDict
  pub created_at : ℕ

pub record CommentNetworkNode : Type 0 where
  pub id : ℕ
  pub network_id : ℕ
  pub node_key : String
  pub node_type : String
  pub label : Option String
  pub author_channel_id : Option String
  pub comment_count : ℕ
  pub hate_speech_count : ℕ
  pub hate_speech_ratio : Ratio
  pub metrics : JsonDict
  pub attributes : JsonDict

pub record CommentNetworkEdge : Type 0 where
  pub id : ℕ
  pub network_id : ℕ
  pub source_node_key : String
  pub target_node_key : String
  pub edge_type : String
  pub weight : ℕ
  pub comment_snapshot_id : Option ℕ
  pub parent_comment_snapshot_id : Option ℕ
  pub is_hate_speech : Option Bool
  pub attributes : JsonDict

pub record ReportSnapshot : Type 0 where
  pub id : ℕ
  pub analysis_run_id : ℕ
  pub owner_user_id : Option ℕ
  pub is_public_sample : Bool
  pub status : JobStatus
  pub title : String
  pub payload : JsonDict
  pub source_counts : JsonDict
  pub failure_summary : Option Json
  pub created_at : ℕ

pub record ReportExport : Type 0 where
  pub id : ℕ
  pub report_snapshot_id : ℕ
  pub format : String
  pub status : JobStatus
  pub file_blob : Option (List ℕ)
  pub file_size_bytes : Option ℕ
  pub checksum : Option String
  pub error_code : Option String
  pub error_message : Option String
  pub created_at : ℕ
  pub finished_at : Option ℕ
