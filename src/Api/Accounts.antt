-- ===== src/Api/Accounts.antt =====
-- The routes of app/api/auth.py that do not speak to Google: the session, the logout and the API keys.
-- A response that deletes the session's cookie is told by a flag.
use Prim.Native.Char.{code}
use hate_speech_rag_service.Common.{
  ℕ, String, Bool, true, false, not, ◌&&◌, ◌||◌, Option, none, some, List, nat_Eq, string_Eq,
  if◌then◌else◌, nat_eq,
}
use hate_speech_rag_service.Common.Errors.{DomainError, domain_error, Result, ok, error}
use hate_speech_rag_service.Db.Accounts.{User, UserApiKey}
use hate_speech_rag_service.Db.Database.{Database}
use hate_speech_rag_service.Auth.Http.{
  AuthSettings, Request, Cookie, Authenticated, required, require_csrf,
}
use hate_speech_rag_service.Auth.Sessions.{revoke}
use hate_speech_rag_service.Auth.ApiKeys.{key_row, put, delete}
use hate_speech_rag_service.Core.Settings.{starts_with}
use hate_speech_rag_service.Api.Access.{Granted}

unfoldable pub has_backslash : String → Bool
has_backslash String.[] = false
has_backslash (String.◌∷◌ c s) = nat_eq (code c) 0x5C || has_backslash s

-- `_safe_return_to`: a path of this site, or its root.
unfoldable pub safe_return_to : String → String
unfolding starts_with has_backslash
safe_return_to value =
    if not (starts_with "/" value) || starts_with "//" value || has_backslash value
    then "/"
    else value

pub record KeyPayload : Type 0 where
  pub provider : String
  pub key_fingerprint : String
  pub is_valid : Bool
  pub last_validated_at : Option ℕ

abbrev pub key_payload : UserApiKey → KeyPayload
key_payload row = record {
  provider = row.provider;
  key_fingerprint = row.key_fingerprint;
  is_valid = row.is_valid;
  last_validated_at = row.last_validated_at;
}

abbrev pub encryption_not_configured : DomainError
encryption_not_configured =
    domain_error "API_KEY_ENCRYPTION_NOT_CONFIGURED" "API 키 암호화가 설정되지 않았습니다." 503

pub record SessionPayload : Type 0 where
  pub user_id : ℕ
  pub email : String
  pub display_name : Option String
  pub avatar_url : Option String
  pub anthropic_registered : Bool
  pub upstage_registered : Bool

-- `bool(keys.get(provider))`
abbrev pub is_registered : Option UserApiKey → Bool
is_registered none = false
is_registered (some row) = row.is_valid

-- What a route does once the user is known.
abbrev pub for_user {ℓ} :
    {A : Type ℓ}
    → (User → Database → Result DomainError (A × Database))
    → Result DomainError (Authenticated User)
    → Result DomainError (Granted A)
for_user action (error e) = error e
for_user action (ok a) = elim (action a.user a.database) [
  | error e ↦ error e
  | ok (value, after) ↦ ok (record { value = value; response = a.response; database = after })
]

module _ (token_hash : String → String) (validate : String → String → Result DomainError (Unit {0}))
    (encrypt : String → List ℕ) (settings : AuthSettings) (encryption_configured : Bool)
    (request : Request) where
  -- Without the encryption no key counts as registered.
  unfoldable pub session_payload : User → Database → SessionPayload
  unfolding key_row
  session_payload user db = record {
    user_id = user.id;
    email = user.email;
    display_name = user.display_name;
    avatar_url = user.avatar_url;
    anthropic_registered =
        encryption_configured && is_registered (key_row user.id "anthropic" db.user_api_keys);
    upstage_registered =
        encryption_configured && is_registered (key_row user.id "upstage" db.user_api_keys);
  }

  unfoldable pub auth_session : List Cookie → Database → Result DomainError (Granted SessionPayload)
  unfolding required session_payload
  auth_session response db =
      for_user (λ user after. ok (session_payload user after, after))
        (required token_hash settings request response db)

  -- Only the CSRF check can refuse a logout; the flag deletes the cookie.
  unfoldable pub logout : Database → Result DomainError (Bool × Database)
  unfolding require_csrf revoke
  logout db = elim (require_csrf request settings) [
    | error e ↦ error e
    | ok _ ↦ ok (
      true,
      revoke token_hash settings.session_ttl_seconds (request.cookies settings.session_cookie_name)
          db,
    )
  ]

  abbrev pub put_for :
      String → String → User → Database → Result DomainError (KeyPayload × Database)
  put_for provider api_key user db =
      if not encryption_configured
      then error encryption_not_configured
      else elim (put validate encrypt user.id provider api_key db) [
        | error e ↦ error e
        | ok (row, after) ↦ ok (key_payload row, after)
      ]

  unfoldable pub put_api_key :
      String → String → List Cookie → Database → Result DomainError (Granted KeyPayload)
  unfolding require_csrf required put
  put_api_key provider api_key response db = elim (require_csrf request settings) [
    | error e ↦ error e
    | ok _ ↦ for_user (put_for provider api_key) (required token_hash settings request response db)
  ]

  abbrev pub delete_for : String → User → Database → Result DomainError (Unit {0} × Database)
  delete_for provider user db =
      if not encryption_configured
      then error encryption_not_configured
      else elim (delete user.id provider db) [ error e ↦ error e | ok after ↦ ok (tt, after) ]

  unfoldable pub delete_api_key :
      String → List Cookie → Database → Result DomainError (Granted (Unit {0}))
  unfolding require_csrf required delete
  delete_api_key provider response db = elim (require_csrf request settings) [
    | error e ↦ error e
    | ok _ ↦ for_user (delete_for provider) (required token_hash settings request response db)
  ]
