-- ===== src/Auth/Http.antt =====
-- AuthResolver, require_csrf and the session cookie of app/auth/http.py. A request is given by its
-- headers and cookies, a response by the cookies set on it.
use hate_speech_rag_service.Common.{
  ℕ, String, Bool, true, not, Option, none, some, List, [], ◌∷◌, ◌++◌, ◌==◌, nat_Eq, string_Eq,
  if◌then◌else◌, ◌≡◌, ◌↔◌, arith, option_eq, option_eq_iff,
}
use hate_speech_rag_service.Common.Errors.{DomainError, domain_error, Result, ok, error}
use hate_speech_rag_service.Db.Accounts.{User}
use hate_speech_rag_service.Db.Database.{Database}
use hate_speech_rag_service.Auth.Sessions.{resolve}

pub record AuthSettings : Type 0 where
  pub session_cookie_name : String
  pub session_cookie_secure : Bool
  pub session_cookie_domain : Option String
  pub session_ttl_seconds : ℕ
  pub frontend_origin : String

pub record Request : Type 0 where
  pub cookies : String → Option String
  pub headers : String → Option String

-- A cookie as `set_cookie` is called: always `httponly`, with `samesite="lax"` and `path="/"`.
pub record Cookie : Type 0 where
  pub name : String
  pub value : String
  pub max_age : ℕ
  pub httponly : Bool
  pub secure : Bool
  pub samesite : String
  pub path : String
  pub domain : Option String

abbrev pub set_session_cookie : AuthSettings → String → List Cookie → List Cookie
set_session_cookie settings token response =
    response
    ++ record {
      name = settings.session_cookie_name;
      value = token;
      max_age = settings.session_ttl_seconds;
      httponly = true;
      secure = settings.session_cookie_secure;
      samesite = "lax";
      path = "/";
      domain = settings.session_cookie_domain;
    }
      ∷ []

-- What a request's authentication leaves: the user, the response's cookies and the database.
pub record Authenticated {ℓ} (A : Type ℓ) : Type ℓ where
  pub user : A
  pub response : List Cookie
  pub database : Database

abbrev pub csrf_source : DomainError
csrf_source = domain_error "CSRF_REJECTED" "요청 출처를 확인할 수 없습니다." 403

abbrev pub csrf_origin : DomainError
csrf_origin = domain_error "CSRF_REJECTED" "허용되지 않은 요청 출처입니다." 403

unfoldable pub require_csrf : Request → AuthSettings → Result DomainError (Unit {0})
require_csrf request settings =
    if not (option_eq (request.headers "X-Requested-With") (some "hatespeechraw"))
    then error csrf_source
    else if not (option_eq (request.headers "Origin") (some settings.frontend_origin))
    then error csrf_origin
    else ok tt

module _ (token_hash : String → String) (settings : AuthSettings) where
  -- The cookie is renewed only where a token was given, since `resolve` needs one.
  abbrev pub renew : Bool → Option String → List Cookie → List Cookie
  renew true (some token) response = set_session_cookie settings token response
  renew _ _ response = response

  unfoldable pub required :
      Request → List Cookie → Database → Result DomainError (Authenticated User)
  unfolding resolve
  required request response db =
      let token = request.cookies settings.session_cookie_name in
      elim (resolve token_hash settings.session_ttl_seconds token db) [
        | error e ↦ error e
        | ok ((user, refresh), after) ↦
            ok (record { user = user; response = renew refresh token response; database = after })
      ]

  -- An error of the status 401 stands for an anonymous request.
  abbrev pub anonymous_on_401 :
      List Cookie
      → Database
      → Result DomainError (Authenticated User)
      → Result DomainError (Authenticated (Option User))
  anonymous_on_401 response db (ok a) =
      ok (record { user = some a.user; response = a.response; database = a.database })
  anonymous_on_401 response db (error e) =
      if e.status_code == 401
      then ok (record { user = none; response = response; database = db })
      else error e

  unfoldable pub optional :
      Request → List Cookie → Database → Result DomainError (Authenticated (Option User))
  unfolding required
  optional request response db = anonymous_on_401 response db (required request response db)

-- A request passes exactly if it names the front end's script and comes from its origin.
pub require_csrf_lem :
    (request : Request) (settings : AuthSettings)
    → (require_csrf request settings ≡ ok tt) ↔ (
        (request.headers "X-Requested-With" ≡ some "hatespeechraw")
        × (request.headers "Origin" ≡ some settings.frontend_origin))
unfolding require_csrf
require_csrf_lem request settings =
    let source = option_eq_iff (request.headers "X-Requested-With") (some "hatespeechraw") in
    let origin = option_eq_iff (request.headers "Origin") (some settings.frontend_origin) in
    (
      λ h. (source.0 (ground arith), origin.0 (ground arith)),
      λ k. ground (arith, source.1 k.0, origin.1 k.1),
    )
