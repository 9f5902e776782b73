-- ===== src/Core/Settings/Production.antt =====
-- What a production process may rely on.
use hate_speech_rag_service.Common.{
  ◌≤◌, String, Bool, true, false, not, ◌||◌, Option, none, some, List, [], ◌∷◌, ◌==◌, string_Eq,
  ◌≡◌, ◌≢◌, refl, arith, if◌then◌else◌, ltb, ==_iff,
}
use hate_speech_rag_service.Common.Errors.{Result, ok, error}
use hate_speech_rag_service.Core.Settings.{
  Settings, ConfigError, is_set, auth_configured, https_rest, netloc, starts_with, missing,
  none_missing, and_then, refuse_if, check_origins, check_production, check_pipeline, check_key,
  validate_runtime,
}

-- What holds for settings that are accepted in production.
pub record IsSafe (s : Settings) : Type 0 where
  pub protected : s.admin_token ≢ "change-me"
  pub stored : starts_with "sqlite" s.database_url ≡ false
  pub real : s.pipeline_mode ≡ "production"
  pub secure : s.session_cookie_secure ≡ true
  pub frontend : String
  pub redirect : String
  pub frontend_https : https_rest s.frontend_origin ≡ some frontend
  pub redirect_https : https_rest s.google_oauth_redirect_uri ≡ some redirect
  pub same_origin : netloc frontend ≡ netloc redirect
  pub logins : auth_configured s ≡ true
  pub key : is_set s.youtube_api_key ≡ true
  pub embedding : s.rag_embedding_concurrency ≤ s.rag_item_concurrency
  pub llm : s.rag_llm_concurrency ≤ s.rag_item_concurrency

both : (a b : Result ConfigError (Unit {0})) → and_then a b ≡ ok tt → (a ≡ ok tt) × (b ≡ ok tt)
both (error e) b h = absurd (ground arith)
both (ok tt) b h = (refl, h)

passed : (b : Bool) (e : ConfigError) → refuse_if b e ≡ ok tt → b ≡ false
passed true e h = absurd (ground arith)
passed false e h = refl

origins :
    (a b : Option String)
    → check_origins a b ≡ ok tt
    → (x : String) × (y : String) × (a ≡ some x) × (b ≡ some y) × (netloc x ≡ netloc y)
unfolding check_origins
origins none b h = absurd (ground arith)
origins (some x) none h = absurd (ground arith)
origins (some x) (some y) h = (
  x,
  y,
  refl,
  refl,
  (==_iff (netloc x) (netloc y)).0 (ground (arith, passed (not (netloc x == netloc y)) _ h)),
)

complete :
    (e : List String → ConfigError) (name : String) (b : Bool) (rest : List (String × Bool))
    → none_missing e (missing ((name, b) ∷ rest)) ≡ ok tt
    → (b ≡ true) × (none_missing e (missing rest) ≡ ok tt)
unfolding missing
complete e name true rest h = (refl, h)
complete e name false rest h = absurd (ground arith)

refused :
    (b : Bool) (e : ConfigError) (rest : Result ConfigError (Unit {0}))
    → and_then (refuse_if b e) rest ≡ ok tt
    → (b ≡ false) × (rest ≡ ok tt)
refused true e rest h = absurd (ground arith)
refused false e rest h = (refl, h)

-- The checks of `check_production`, each of which has passed.
abbrev check_auth : Settings → Result ConfigError (Unit {0})
check_auth s = none_missing ConfigError.missing_auth (
    missing (
      ("GOOGLE_CLIENT_ID", is_set s.google_client_id)
      ∷ ("GOOGLE_CLIENT_SECRET", is_set s.google_client_secret)
      ∷ ("API_KEY_ENCRYPTION_KEY", is_set s.api_key_encryption_key)
      ∷ []))

production_checks :
    (s : Settings)
    → check_production s ≡ ok tt
    → ((s.admin_token == "change-me") ≡ false)
      × (starts_with "sqlite" s.database_url ≡ false)
      × (not (s.pipeline_mode == "production") ≡ false)
      × (not s.session_cookie_secure ≡ false)
      × (check_origins (https_rest s.frontend_origin) (https_rest s.google_oauth_redirect_uri)
          ≡ ok tt)
      × (check_auth s ≡ ok tt)
unfolding check_production
production_checks s h =
    let origin_check : Result ConfigError (Unit {0}) =
      check_origins (https_rest s.frontend_origin) (https_rest s.google_oauth_redirect_uri) in
    let from_origins : Result ConfigError (Unit {0}) = and_then origin_check (check_auth s) in
    let from_cookie : Result ConfigError (Unit {0}) =
      and_then (refuse_if (not s.session_cookie_secure) ConfigError.insecure_cookie) from_origins in
    let from_mode : Result ConfigError (Unit {0}) =
      and_then
        (refuse_if (not (s.pipeline_mode == "production")) ConfigError.pipeline_mode_required)
        from_cookie in
    let from_database : Result ConfigError (Unit {0}) =
      and_then (refuse_if (starts_with "sqlite" s.database_url) ConfigError.sqlite_database)
        from_mode in
    let (token, r1) =
      refused (s.admin_token == "change-me") ConfigError.admin_token_unchanged from_database h in
    let (database, r2) =
      refused (starts_with "sqlite" s.database_url) ConfigError.sqlite_database from_mode r1 in
    let (mode, r3) =
      refused (not (s.pipeline_mode == "production")) ConfigError.pipeline_mode_required from_cookie
        r2 in
    let (cookie, r4) =
      refused (not s.session_cookie_secure) ConfigError.insecure_cookie from_origins r3 in
    let (https, auth) = both origin_check (check_auth s) r4 in
    (token, database, mode, cookie, https, auth)

abbrev auth_names : Settings → List (String × Bool)
auth_names s =
    ("GOOGLE_CLIENT_SECRET", is_set s.google_client_secret)
    ∷ ("API_KEY_ENCRYPTION_KEY", is_set s.api_key_encryption_key)
    ∷ []

auth-configured : (s : Settings) → check_auth s ≡ ok tt → auth_configured s ≡ true
unfolding auth_configured
auth-configured s h =
    let (id, r1) =
      complete ConfigError.missing_auth "GOOGLE_CLIENT_ID" (is_set s.google_client_id)
        (auth_names s) h in
    let (secret, r2) =
      complete ConfigError.missing_auth "GOOGLE_CLIENT_SECRET" (is_set s.google_client_secret)
        (("API_KEY_ENCRYPTION_KEY", is_set s.api_key_encryption_key) ∷ []) r1 in
    let (encryption, r3) =
      complete ConfigError.missing_auth "API_KEY_ENCRYPTION_KEY" (is_set s.api_key_encryption_key)
        [] r2 in
    ground (arith, id, secret, encryption)

youtube-set : (s : Settings) → check_pipeline s ≡ ok tt → is_set s.youtube_api_key ≡ true
unfolding check_pipeline
youtube-set s h =
    (complete ConfigError.missing_pipeline "YOUTUBE_API_KEY" (is_set s.youtube_api_key)
      (("LLM_API_KEY or ANTHROPIC_API_KEY", auth_configured s || is_set s.llm_api_key)
        ∷ (
          "EMBEDDING_API_KEY or UPSTAGE_API_KEY",
          auth_configured s || (s.embedding_provider == "hash" || is_set s.embedding_api_key),
        )
        ∷ [])
      h).0

chosen :
    (b : Bool) (r : Result ConfigError (Unit {0}))
    → b ≡ true
    → (if b then r else ok tt) ≡ ok tt
    → r ≡ ok tt
chosen true r h k = k
chosen false r h k = absurd (ground arith)

-- Settings that are accepted for a production process have a changed administrator's token, a
-- database that is not SQLite, the production pipeline, a secure session cookie, an HTTPS frontend
-- with the login's redirect in the same place, the login and the video service configured, and
-- concurrencies within that of the items.
pub validate_runtime-IsSafe :
    (is_fernet_key : String → Bool) (s : Settings)
    → s.app_env ≡ "production"
    → validate_runtime is_fernet_key s ≡ ok tt
    → IsSafe s
unfolding validate_runtime
validate_runtime-IsSafe is_fernet_key s production valid =
    let after_llm : Result ConfigError (Unit {0}) =
      and_then (if s.app_env == "production" then check_production s else ok tt)
        (if s.pipeline_mode == "production" then check_pipeline s else ok tt) in
    let llm_check : Result ConfigError (Unit {0}) =
      refuse_if (ltb s.rag_item_concurrency s.rag_llm_concurrency) ConfigError.llm_concurrency in
    let embedding_check : Result ConfigError (Unit {0}) =
      refuse_if (ltb s.rag_item_concurrency s.rag_embedding_concurrency)
        ConfigError.embedding_concurrency in
    let (key, r1) =
      both (check_key is_fernet_key s.api_key_encryption_key)
        (and_then embedding_check (and_then llm_check after_llm)) valid in
    let (embedding, r2) = both embedding_check (and_then llm_check after_llm) r1 in
    let (llm, r3) = both llm_check after_llm r2 in
    let (env, pipeline) =
      both (if s.app_env == "production" then check_production s else ok tt)
        (if s.pipeline_mode == "production" then check_pipeline s else ok tt) r3 in
    let checked : check_production s ≡ ok tt =
      chosen (s.app_env == "production") (check_production s)
        ((==_iff s.app_env "production").1 production) env in
    let (token, database, mode, cookie, https, auth) = production_checks s checked in
    let (frontend, redirect, is_frontend, is_redirect, same) =
      origins (https_rest s.frontend_origin) (https_rest s.google_oauth_redirect_uri) https in
    let real : (s.pipeline_mode == "production") ≡ true = ground (arith, mode) in
    record {
      protected = λ e. absurd (ground (arith, token, (==_iff s.admin_token "change-me").1 e));
      stored = database;
      real = (==_iff s.pipeline_mode "production").0 real;
      secure = ground (arith, cookie);
      frontend = frontend;
      redirect = redirect;
      frontend_https = is_frontend;
      redirect_https = is_redirect;
      same_origin = same;
      logins = auth-configured s auth;
      key =
          youtube-set s (chosen (s.pipeline_mode == "production") (check_pipeline s) real pipeline);
      embedding = ground (
        arith,
        passed (ltb s.rag_item_concurrency s.rag_embedding_concurrency)
            ConfigError.embedding_concurrency embedding,
      );
      llm = ground (
        arith,
        passed (ltb s.rag_item_concurrency s.rag_llm_concurrency) ConfigError.llm_concurrency llm,
      );
    }
