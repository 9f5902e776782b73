-- ===== src/Db/Database.antt =====
-- The database as the services see it, with the two things that they read from the outside: the
-- clock of `utcnow` and the supply of fresh ids of `uuid4`.
use hate_speech_rag_service.Common.{ℕ, List, []}
use hate_speech_rag_service.Db.Accounts.{User, UserSession, UserApiKey}
use hate_speech_rag_service.Db.JobRows.{AnalysisJob, JobStep, OperationLog, ApiQuotaEvent}
use hate_speech_rag_service.Db.Content.{
  VideoMetadataSnapshot, CommentSnapshot, TranscriptSnapshot, TranscriptSegment,
}
use hate_speech_rag_service.Db.Results.{
  AnalysisRun, AnalysisResult, CommentNetwork, CommentNetworkNode, CommentNetworkEdge,
  ReportSnapshot, ReportExport,
}

pub record Database : Type 0 where
  pub users : List User
  pub user_sessions : List UserSession
  pub user_api_keys : List UserApiKey
  pub analysis_jobs : List AnalysisJob
  pub job_steps : List JobStep
  pub operation_logs : List OperationLog
  pub api_quota_events : List ApiQuotaEvent
  pub video_metadata_snapshots : List VideoMetadataSnapshot
  pub comment_snapshots : List CommentSnapshot
  pub transcript_snapshots : List TranscriptSnapshot
  pub transcript_segments : List TranscriptSegment
  pub analysis_runs : List AnalysisRun
  pub comment_analysis_results : List AnalysisResult
  pub script_analysis_results : List AnalysisResult
  pub comment_networks : List CommentNetwork
  pub comment_network_nodes : List CommentNetworkNode
  pub comment_network_edges : List CommentNetworkEdge
  pub report_snapshots : List ReportSnapshot
  pub report_exports : List ReportExport
  -- What `utcnow` returns; only the environment moves it.
  pub now : ℕ
  -- The id that the next `uuid4` gives.
  pub next_id : ℕ

abbrev pub empty : Database
empty = record {
  users = [];
  user_sessions = [];
  user_api_keys = [];
  analysis_jobs = [];
  job_steps = [];
  operation_logs = [];
  api_quota_events = [];
  video_metadata_snapshots = [];
  comment_snapshots = [];
  transcript_snapshots = [];
  transcript_segments = [];
  analysis_runs = [];
  comment_analysis_results = [];
  script_analysis_results = [];
  comment_networks = [];
  comment_network_nodes = [];
  comment_network_edges = [];
  report_snapshots = [];
  report_exports = [];
  now = 0;
  next_id = 1;
}
