-- ===== src/Core/Tests.antt =====
-- A production configuration, and the theorem on it.
use hate_speech_rag_service.Common.{String, Bool, true, false, none, some, refl}
use hate_speech_rag_service.Core.Settings.{Settings, validate_runtime}
use hate_speech_rag_service.Core.Settings.Production.{IsSafe, validate_runtime-IsSafe}

abbrev production_settings : Settings
production_settings = record {
  app_env = "production";
  pipeline_mode = "production";
  database_url = "postgresql://db/hate";
  admin_token = "s3cret";
  frontend_origin = "https://example.org";
  google_oauth_redirect_uri = "https://example.org/api/auth/google/callback";
  google_client_id = some "id";
  google_client_secret = some "secret";
  api_key_encryption_key = some "key";
  session_cookie_secure = true;
  session_cookie_domain = none;
  youtube_api_key = some "yt";
  llm_api_key = none;
  embedding_api_key = none;
  upstage_api_key = none;
  anthropic_api_key = none;
  embedding_provider = "upstage";
  rag_item_concurrency = 4;
  rag_embedding_concurrency = 4;
  rag_llm_concurrency = 2;
  api_docs_enabled = false;
  log_level = "INFO";
  session_cookie_name = "hsr_session";
  session_ttl_seconds = 1209600;
  worker_poll_interval_ms = 2000;
  worker_stale_after_seconds = 900;
  rag_execution_mode = "sequential";
  rag_item_max_attempts = 3;
  rag_heartbeat_interval_seconds = 30;
  rag_shutdown_grace_seconds = 30;
  rag_request_timeout_seconds = 30;
  chroma_persist_directory = ".chroma";
  embedding_model = "embedding";
  upstage_embedding_base_url = "https://api.upstage.ai/v1/embeddings";
  llm_provider = "anthropic";
  llm_model = "claude-haiku-4-5-20251001";
  llm_max_tokens = 1200;
  llm_temperature_thousandths = 0;
  langfuse_enabled = false;
  langfuse_host = "http://localhost:3000";
  langfuse_public_key = none;
  langfuse_secret_key = none;
  langfuse_capture_io = false;
}

abbrev any_key : String → Bool
any_key key = true

validate_runtime-IsSafe_example : IsSafe production_settings
unfolding validate_runtime
validate_runtime-IsSafe_example = validate_runtime-IsSafe any_key production_settings refl refl
