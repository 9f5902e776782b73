-- ===== src/Core/Settings.antt =====
-- Settings.validate_runtime of app/core/config.py. `is_fernet_key` is the test of the encryption
-- package. Of `urlsplit`, the scheme is compared with "https" and the network location is read;
-- its errors on brackets are left out.
pub mod Production
use Prim.Native.String
use Prim.Native.Char.{Char, code}
use hate_speech_rag_service.Common.{
  ℕ, ◌+◌, String, Bool, true, false, not, ◌&&◌, ◌||◌, Option, none, some, List, [], ◌∷◌, ◌++◌, ◌==◌,
  string_Eq, if◌then◌else◌, ltb, leb, nat_eq,
}
use hate_speech_rag_service.Common.Errors.{Result, ok, error}

pub record Settings : Type 0 where
  pub app_env : String
  pub pipeline_mode : String
  pub database_url : String
  pub admin_token : String
  pub frontend_origin : String
  pub google_oauth_redirect_uri : String
  pub google_client_id : Option String
  pub google_client_secret : Option String
  pub api_key_encryption_key : Option String
  pub session_cookie_secure : Bool
  pub session_cookie_domain : Option String
  pub youtube_api_key : Option String
  pub llm_api_key : Option String
  pub embedding_api_key : Option String
  pub upstage_api_key : Option String
  pub anthropic_api_key : Option String
  pub embedding_provider : String
  pub rag_item_concurrency : ℕ
  pub rag_embedding_concurrency : ℕ
  pub rag_llm_concurrency : ℕ
  pub api_docs_enabled : Bool
  pub log_level : String
  pub session_cookie_name : String
  pub session_ttl_seconds : ℕ
  pub worker_poll_interval_ms : ℕ
  pub worker_stale_after_seconds : ℕ
  pub rag_execution_mode : String
  pub rag_item_max_attempts : ℕ
  pub rag_heartbeat_interval_seconds : ℕ
  pub rag_shutdown_grace_seconds : ℕ
  pub rag_request_timeout_seconds : ℕ
  pub chroma_persist_directory : String
  pub embedding_model : String
  pub upstage_embedding_base_url : String
  pub llm_provider : String
  pub llm_model : String
  pub llm_max_tokens : ℕ
  pub llm_temperature_thousandths : ℕ
  pub langfuse_enabled : Bool
  pub langfuse_host : String
  pub langfuse_public_key : Option String
  pub langfuse_secret_key : Option String
  pub langfuse_capture_io : Bool

pub data ConfigError : Type 0 where
  invalid_encryption_key embedding_concurrency llm_concurrency : ConfigError
  admin_token_unchanged sqlite_database pipeline_mode_required insecure_cookie : ConfigError
  https_required foreign_redirect : ConfigError
  missing_auth missing_pipeline : List String → ConfigError

-- A value that Python takes for true.
abbrev pub is_set : Option String → Bool
is_set none = false
is_set (some s) = not (s == "")

abbrev pub or_value : Option String → Option String → Option String
or_value none other = other
or_value (some s) other = some s

abbrev pub without_empty : Option String → Option String
without_empty none = none
without_empty (some s) = if s == "" then none else some s

-- `model_post_init`
unfoldable pub post_init : Settings → Settings
post_init s = record s {
  session_cookie_domain = without_empty s.session_cookie_domain;
  embedding_api_key = or_value s.embedding_api_key s.upstage_api_key;
  llm_api_key = or_value s.llm_api_key s.anthropic_api_key;
}

unfoldable pub auth_configured : Settings → Bool
auth_configured s =
    is_set s.google_client_id && is_set s.google_client_secret && is_set s.api_key_encryption_key

-- Control characters and blanks before an address, and tabs and line breaks in it, are dropped.
unfoldable pub drop_leading : String → String
drop_leading String.[] = ""
drop_leading (String.◌∷◌ c s) =
    let rest = drop_leading s in if leb (code c) 32 then rest else String.◌∷◌ c s

unfoldable pub drop_breaks : String → String
drop_breaks String.[] = ""
drop_breaks (String.◌∷◌ c s) =
    let rest = drop_breaks s in
    if nat_eq (code c) 9 || nat_eq (code c) 10 || nat_eq (code c) 13
    then rest
    else String.◌∷◌ c rest

-- A letter of the scheme, in either case.
abbrev pub is_letter : Char → Char → Bool
is_letter lower c = nat_eq (code c) (code lower) || nat_eq (code c + 32) (code lower)

-- What follows a scheme, which is written in small letters.
unfoldable pub after_scheme : String → String → Option String
after_scheme String.[] String.[] = none
after_scheme String.[] (String.◌∷◌ c s) = if nat_eq (code c) 0x3A then some s else none
after_scheme (String.◌∷◌ l ls) String.[] = none
after_scheme (String.◌∷◌ l ls) (String.◌∷◌ c s) =
    let rest = after_scheme ls s in if is_letter l c then rest else none

-- What follows `https:` in an address of that scheme.
unfoldable pub https_rest : String → Option String
unfolding drop_leading drop_breaks after_scheme
https_rest url = after_scheme "https" (drop_breaks (drop_leading url))

-- Up to the first `/`, `?` or `#`.
unfoldable pub location : String → String
location String.[] = ""
location (String.◌∷◌ c s) =
    let rest = location s in
    if nat_eq (code c) 0x2F || nat_eq (code c) 0x3F || nat_eq (code c) 0x23
    then ""
    else String.◌∷◌ c rest

-- The network location, if two slashes come first.
unfoldable pub netloc : String → String
unfolding location
netloc String.[] = ""
netloc (String.◌∷◌ a String.[]) = ""
netloc (String.◌∷◌ a (String.◌∷◌ b s)) =
    if nat_eq (code a) 0x2F && nat_eq (code b) 0x2F then location s else ""

unfoldable pub starts_with : String → String → Bool
starts_with String.[] s = true
starts_with (String.◌∷◌ l ls) String.[] = false
starts_with (String.◌∷◌ l ls) (String.◌∷◌ c s) = nat_eq (code l) (code c) && starts_with ls s

-- The names whose test fails.
unfoldable pub missing : List (String × Bool) → List String
missing [] = []
missing ((name, present) ∷ rest) =
    let later = missing rest in if present then later else name ∷ later

abbrev pub none_missing : (List String → ConfigError) → List String → Result ConfigError (Unit {0})
none_missing e [] = ok tt
none_missing e (name ∷ names) = error (e (name ∷ names))

-- One check after another: the first that fails is raised.
abbrev pub and_then :
    Result ConfigError (Unit {0}) → Result ConfigError (Unit {0}) → Result ConfigError (Unit {0})
and_then (error e) later = error e
and_then (ok _) later = later

abbrev pub refuse_if : Bool → ConfigError → Result ConfigError (Unit {0})
refuse_if b e = if b then error e else ok tt

-- Both addresses are of HTTPS and of one network location.
unfoldable pub check_origins : Option String → Option String → Result ConfigError (Unit {0})
unfolding netloc
check_origins (some frontend) (some redirect) =
    refuse_if (not (netloc frontend == netloc redirect)) foreign_redirect
check_origins _ _ = error https_required

unfoldable pub check_production : Settings → Result ConfigError (Unit {0})
unfolding https_rest check_origins starts_with missing
check_production s = and_then (refuse_if (s.admin_token == "change-me") admin_token_unchanged) (
    and_then (refuse_if (starts_with "sqlite" s.database_url) sqlite_database) (
      and_then (refuse_if (not (s.pipeline_mode == "production")) pipeline_mode_required) (
        and_then (refuse_if (not s.session_cookie_secure) insecure_cookie) (
          and_then
            (check_origins (https_rest s.frontend_origin) (https_rest s.google_oauth_redirect_uri))
            (none_missing missing_auth (
              missing (
                ("GOOGLE_CLIENT_ID", is_set s.google_client_id)
                ∷ ("GOOGLE_CLIENT_SECRET", is_set s.google_client_secret)
                ∷ ("API_KEY_ENCRYPTION_KEY", is_set s.api_key_encryption_key)
                ∷ [])))))))

unfoldable pub check_pipeline : Settings → Result ConfigError (Unit {0})
unfolding auth_configured missing
check_pipeline s = none_missing missing_pipeline (
    missing (
      ("YOUTUBE_API_KEY", is_set s.youtube_api_key)
      ∷ ("LLM_API_KEY or ANTHROPIC_API_KEY", auth_configured s || is_set s.llm_api_key)
      ∷ (
        "EMBEDDING_API_KEY or UPSTAGE_API_KEY",
        auth_configured s || (s.embedding_provider == "hash" || is_set s.embedding_api_key),
      )
      ∷ []))

module _ (is_fernet_key : String → Bool) where
  abbrev pub check_key : Option String → Result ConfigError (Unit {0})
  check_key none = ok tt
  check_key (some key) =
      refuse_if (not (key == "") && not (is_fernet_key key)) invalid_encryption_key

  unfoldable pub validate_runtime : Settings → Result ConfigError (Unit {0})
  unfolding check_production check_pipeline
  validate_runtime s = and_then (check_key s.api_key_encryption_key) (
      and_then
        (refuse_if (ltb s.rag_item_concurrency s.rag_embedding_concurrency) embedding_concurrency)
        (and_then (refuse_if (ltb s.rag_item_concurrency s.rag_llm_concurrency) llm_concurrency) (
          and_then (if s.app_env == "production" then check_production s else ok tt)
            (if s.pipeline_mode == "production" then check_pipeline s else ok tt))))
