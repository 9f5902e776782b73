-- ===== src/Auth/Sessions.antt =====
-- UserService and SessionService of app/auth/services.py. `token_hash`, the SHA-256 of a token, is a
-- parameter, as is the token that `secrets.token_urlsafe` gives.
pub mod Lifetime
pub mod Bounds
use hate_speech_rag_service.Common.{
  ℕ, suc, ◌+◌, ◌-◌, ◌*◌, String, Bool, true, false, Option, none, some, List, [], ◌∷◌, ◌++◌, ltb,
  leb, ◌==◌, ◌||◌, nat_Eq, string_Eq, if◌then◌else◌, find?, update_where, is_some,
}
use hate_speech_rag_service.Common.Errors.{DomainError, domain_error, Result, ok, error}
use hate_speech_rag_service.Db.Accounts.{User, UserSession}
use hate_speech_rag_service.Db.Database.{Database}

pub record GoogleIdentity : Type 0 where
  pub sub : String
  pub email : String
  pub email_verified : Bool
  pub display_name : Option String
  pub avatar_url : Option String

abbrev pub update_user : ℕ → GoogleIdentity → User → User
update_user now identity user = record user {
  email = identity.email;
  email_verified = identity.email_verified;
  display_name = identity.display_name;
  avatar_url = identity.avatar_url;
  last_login_at = some now;
}

-- A row of an account that logs in for the first time, before `update_user`.
abbrev pub new_user : ℕ → ℕ → GoogleIdentity → User
new_user id now identity = record {
  id = id;
  google_sub = identity.sub;
  email = identity.email;
  email_verified = false;
  display_name = none;
  avatar_url = none;
  status = "active";
  created_at = now;
  last_login_at = none;
}

unfoldable pub upsert_google_user : GoogleIdentity → Database → User × Database
upsert_google_user identity db = elim (find? (λ user. user.google_sub == identity.sub) db.users) [
  | none ↦
      let user = update_user db.now identity (new_user db.next_id db.now identity) in
      (user, record db { users = db.users ++ user ∷ []; next_id = suc db.next_id })
  | some user ↦ (
    update_user db.now identity user,
    record db {
      users = update_where (λ row. row.id == user.id) (update_user db.now identity) db.users;
    },
  )
]

abbrev pub not_logged_in : DomainError
not_logged_in = domain_error "SESSION_INVALID" "로그인이 필요합니다." 401

abbrev pub session_invalid : DomainError
session_invalid = domain_error "SESSION_INVALID" "유효하지 않은 세션입니다." 401

abbrev pub session_expired : DomainError
session_expired = domain_error "SESSION_EXPIRED" "세션이 만료되었습니다." 401

abbrev pub account_suspended : DomainError
account_suspended = domain_error "ACCOUNT_SUSPENDED" "정지된 계정입니다." 403

-- `if not token`: no cookie, or an empty one.
abbrev pub given : Option String → Option String
given none = none
given (some token) = if token == "" then none else some token

-- `row.revoked_at is not None or expires_at <= now`
abbrev pub is_over : ℕ → UserSession → Bool
is_over now row = is_some row.revoked_at || leb row.expires_at now

-- `expires_at - now < ttl / 2`, of a row that is not over.
abbrev pub is_aging : ℕ → ℕ → UserSession → Bool
is_aging ttl now row = ltb (2 * (row.expires_at - now)) ttl

-- The row's update when it is used.
abbrev pub touch : ℕ → ℕ → UserSession → UserSession
touch ttl now row = record row {
  last_seen_at = now;
  expires_at = if is_aging ttl now row then now + ttl else row.expires_at;
}

module _ (token_hash : String → String) (ttl_seconds : ℕ) where
  abbrev pub new_session : ℕ → Option String → Option String → String → Database → UserSession
  new_session user_id user_agent ip_address token db = record {
    id = db.next_id;
    user_id = user_id;
    session_token_hash = token_hash token;
    user_agent = user_agent;
    ip_address = ip_address;
    created_at = db.now;
    last_seen_at = db.now;
    expires_at = db.now + ttl_seconds;
    revoked_at = none;
  }

  -- The token is returned as it is given.
  unfoldable pub issue : ℕ → Option String → Option String → String → Database → Database
  issue user_id user_agent ip_address token db = record db {
    user_sessions = db.user_sessions ++ new_session user_id user_agent ip_address token db ∷ [];
    next_id = suc db.next_id;
  }

  unfoldable pub session_of : String → Database → Option UserSession
  session_of token db = find? (λ row. row.session_token_hash == token_hash token) db.user_sessions

  -- What follows once the row is found: the checks in their order, and the update of the row.
  unfoldable pub admit : UserSession → Database → Result DomainError ((User × Bool) × Database)
  admit row db =
      if is_over db.now row
      then error session_expired
      else elim (find? (λ user. user.id == row.user_id) db.users) [
        | none ↦ error session_invalid
        | some user ↦
            if user.status == "suspended"
            then error account_suspended
            else ok (
              (user, is_aging ttl_seconds db.now row),
              record db {
                user_sessions =
                    update_where (λ other. other.id == row.id) (touch ttl_seconds db.now)
                      db.user_sessions;
              },
            )
      ]

  unfoldable pub resolve : Option String → Database → Result DomainError ((User × Bool) × Database)
  unfolding session_of admit
  resolve token db = elim (given token) [
    | none ↦ error not_logged_in
    | some text ↦ elim (session_of text db) [
      | none ↦ error session_invalid
      | some row ↦ admit row db
    ]
  ]

  abbrev pub revoked : ℕ → UserSession → UserSession
  revoked now row = record row { revoked_at = some now }

  unfoldable pub revoke : Option String → Database → Database
  unfolding session_of
  revoke token db = elim (given token) [
    | none ↦ db
    | some text ↦ elim (session_of text db) [
      | none ↦ db
      | some row ↦ record db {
        user_sessions =
            update_where (λ other. other.id == row.id) (revoked db.now) db.user_sessions;
      }
    ]
  ]
