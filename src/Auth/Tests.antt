-- ===== src/Auth/Tests.antt =====
-- Small inputs of the accounts, and the theorems at concrete inputs.
use hate_speech_rag_service.Common.{
  ℕ, String, true, none, some, List, [], ◌∷◌, ◌≡◌, refl, arith, ==_iff, nat_Eq, string_Eq,
}
use hate_speech_rag_service.Common.Errors.{DomainError, Result, ok}
use hate_speech_rag_service.Db.Accounts.{User}
use hate_speech_rag_service.Db.Database.{Database, empty}
use hate_speech_rag_service.Auth.Sessions.{issue, resolve, revoke}
use hate_speech_rag_service.Auth.Sessions.Lifetime.{
  later, reply, answer, status_of, issue_lifetime, revoke-resolve,
}
use hate_speech_rag_service.Auth.Sessions.Bounds.{
  AreBounded, SessionCall, issues, resolves, revokes, waits, call_all, call_all-AreBounded,
}
use hate_speech_rag_service.Auth.ApiKeys.{put}
use hate_speech_rag_service.Auth.ApiKeys.Required.{Stores, put-Stores}
use hate_speech_rag_service.Auth.Http.{AuthSettings, Request}

-- A stand-in for SHA-256.
abbrev hash : String → String
hash token = token

abbrev someone : User
someone = record {
  id = 3;
  google_sub = "118";
  email = "a@example.org";
  email_verified = true;
  display_name = none;
  avatar_url = none;
  status = "active";
  created_at = 5;
  last_login_at = some 90;
}

abbrev one_user : Database
one_user = record empty { users = someone ∷ []; now = 100 }

issue_lifetime_example :
    reply hash 60 (
      resolve hash 60
        (some "token")
        (later hash 60 40 (issue hash 60 3 none none "token" one_user)))
    ≡ answer hash 60 true someone true
issue_lifetime_example =
    issue_lifetime hash 60 3 none none "token" someone 40 one_user
      (λ e. ground (arith, (==_iff {Value = String} "token" "").1 e)) refl refl refl

revoke-resolve_example :
    status_of hash 60 (
      resolve hash 60 (some "token") (
        later hash 60 1
          (revoke hash 60 (some "token") (issue hash 60 3 none none "token" one_user))))
    ≡ 401
revoke-resolve_example =
    revoke-resolve hash 60 (some "token") 1 (issue hash 60 3 none none "token" one_user)

abbrev some_calls : List SessionCall
some_calls =
    issues 3 none none "token" ∷ waits 40 ∷ resolves (some "token") ∷ revokes (some "token") ∷ []

call_all-AreBounded_example : AreBounded 60 (call_all hash 60 some_calls one_user)
call_all-AreBounded_example = call_all-AreBounded hash 60 some_calls one_user tt

abbrev accept : String → String → Result DomainError (Unit {0})
accept provider key = ok tt

abbrev no_encryption : String → List ℕ
no_encryption key = 7 ∷ []

put-Stores_example :
    Stores accept no_encryption 3 "upstage" "up-key"
      (put accept no_encryption 3 "upstage" "up-key" one_user)
put-Stores_example =
    put-Stores accept no_encryption 3 "upstage" "up-key" one_user refl refl (omega arith)

abbrev settings : AuthSettings
settings = record {
  session_cookie_name = "hsr_session";
  session_cookie_secure = true;
  session_cookie_domain = none;
  session_ttl_seconds = 60;
  frontend_origin = "http://localhost:3000";
}

abbrev request : Request
request = record { cookies = λ name. some "token"; headers = λ name. some "hatespeechraw" }
