-- ===== src/Auth/Sessions/Bounds.antt =====
-- How far in the future a session can expire.
use hate_speech_rag_service.Common.{
  ℕ, ◌+◌, ◌≤◌, String, Bool, true, false, Option, none, some, List, [], ◌∷◌, ◌==◌, nat_Eq,
  string_Eq, find?, update_where, arith, if◌then◌else◌, All, All-update_where, All-append, All-map,
}
use hate_speech_rag_service.Common.Errors.{DomainError, Result, ok, error}
use hate_speech_rag_service.Db.Accounts.{User, UserSession}
use hate_speech_rag_service.Db.Database.{Database}
use hate_speech_rag_service.Auth.Sessions.{
  issue, new_session, session_of, admit, resolve, revoke, given, touch, is_aging, is_over, revoked,
  account_suspended, session_expired, session_invalid, not_logged_in,
}

-- A session was last used in the past, and ends at most `ttl` seconds after its last use.
pub record IsBounded (ttl now : ℕ) (row : UserSession) : Type 0 where
  pub seen : row.last_seen_at ≤ now
  pub ends : row.expires_at ≤ row.last_seen_at + ttl

abbrev pub AreBounded : ℕ → Database → Type 0
AreBounded ttl db = All (IsBounded ttl db.now) db.user_sessions

-- What holds of the database after a call that returns.
abbrev pub AreBoundedAfter : ℕ → Result DomainError ((User × Bool) × Database) → Type 0
AreBoundedAfter ttl (ok (_, db)) = AreBounded ttl db
AreBoundedAfter ttl (error _) = Unit

touch-IsBounded :
    (ttl now : ℕ) (row : UserSession)
    → IsBounded ttl now row
    → IsBounded ttl now (touch ttl now row)
touch-IsBounded ttl now row h = record { seen = omega arith; ends = ground (arith, h.seen, h.ends) }

revoked-IsBounded :
    (token_hash : String → String) (ttl now : ℕ) (row : UserSession)
    → IsBounded ttl now row
    → IsBounded ttl now (revoked token_hash ttl now row)
revoked-IsBounded token_hash ttl now row h = record { seen = h.seen; ends = h.ends }

update-IsBounded :
    (ttl now : ℕ) (p : UserSession → Bool) (f : UserSession → UserSession)
    → ((row : UserSession) → IsBounded ttl now row → IsBounded ttl now (f row))
    → (rows : List UserSession) → All (IsBounded ttl now) rows
    → All (IsBounded ttl now) (update_where p f rows)
update-IsBounded ttl now p f k rows h =
    All-update_where (IsBounded ttl now) (IsBounded ttl now) p f rows (λ row b. on row b (p row)) h
  where
    on :
        (row : UserSession)
        → IsBounded ttl now row
        → (b : Bool) → IsBounded ttl now (if b then f row else row)
    on row b true = k row b
    on row b false = b

module _ (token_hash : String → String) (ttl : ℕ) where
  admit-AreBounded :
      (row : UserSession) (db : Database)
      → AreBounded ttl db
      → AreBoundedAfter ttl (admit token_hash ttl row db)
  unfolding admit
  admit-AreBounded row db h =
      go (is_over db.now row) (find? (λ user. user.id == row.user_id) db.users)
    where
      touched : Database
      touched = record db {
        user_sessions =
            update_where (λ other. other.id == row.id) (touch ttl db.now) db.user_sessions;
      }

      on_user :
          (user : User) (suspended : Bool)
          → AreBoundedAfter ttl (
              if suspended
              then error account_suspended
              else ok ((user, is_aging ttl db.now row), touched))
      on_user user true = tt
      on_user user false =
          update-IsBounded ttl db.now (λ other. other.id == row.id) (touch ttl db.now)
            (touch-IsBounded ttl db.now) db.user_sessions h

      go :
          (over : Bool) (found : Option User)
          → AreBoundedAfter ttl (
              if over then error session_expired else elim found [
                | none ↦ error session_invalid
                | some user ↦
                    if user.status == "suspended"
                    then error account_suspended
                    else ok ((user, is_aging ttl db.now row), touched)
              ])
      go true found = tt
      go false none = tt
      go false (some user) = on_user user (user.status == "suspended")

  resolve-AreBounded :
      (token : Option String) (db : Database)
      → AreBounded ttl db
      → AreBoundedAfter ttl (resolve token_hash ttl token db)
  unfolding resolve
  resolve-AreBounded token db h = go (given token)
    where
      on_row :
          (found : Option UserSession)
          → AreBoundedAfter ttl
              (elim found [ none ↦ error session_invalid | some row ↦ admit token_hash ttl row db ])
      on_row none = tt
      on_row (some row) = admit-AreBounded row db h

      go :
          (text : Option String)
          → AreBoundedAfter ttl (elim text [
            | none ↦ error not_logged_in
            | some t ↦ elim (session_of token_hash ttl t db) [
              | none ↦ error session_invalid
              | some row ↦ admit token_hash ttl row db
            ]
          ])
      go none = tt
      go (some t) = on_row (session_of token_hash ttl t db)

  issue-AreBounded :
      (user_id : ℕ) (user_agent ip_address : Option String) (token : String) (db : Database)
      → AreBounded ttl db
      → AreBounded ttl (issue token_hash ttl user_id user_agent ip_address token db)
  unfolding issue
  issue-AreBounded user_id user_agent ip_address token db h =
      All-append (IsBounded ttl db.now) db.user_sessions
        (new_session token_hash ttl user_id user_agent ip_address token db ∷ []) h
        (record { seen = omega arith; ends = omega arith }, tt)

  revoke-AreBounded :
      (token : Option String) (db : Database)
      → AreBounded ttl db
      → AreBounded ttl (revoke token_hash ttl token db)
  unfolding revoke
  revoke-AreBounded token db h = go (given token)
    where
      on_row :
          (found : Option UserSession)
          → AreBounded ttl (elim found [
            | none ↦ db
            | some row ↦ record db {
              user_sessions =
                  update_where
                    (λ other. other.id == row.id)
                    (revoked token_hash ttl db.now)
                    db.user_sessions;
            }
          ])
      on_row none = h
      on_row (some row) =
          update-IsBounded ttl db.now (λ other. other.id == row.id) (revoked token_hash ttl db.now)
            (revoked-IsBounded token_hash ttl db.now) db.user_sessions h

      go :
          (text : Option String)
          → AreBounded ttl (elim text [
            | none ↦ db
            | some t ↦ elim (session_of token_hash ttl t db) [
              | none ↦ db
              | some row ↦ record db {
                user_sessions =
                    update_where
                      (λ other. other.id == row.id)
                      (revoked token_hash ttl db.now)
                      db.user_sessions;
              }
            ]
          ])
      go none = h
      go (some t) = on_row (session_of token_hash ttl t db)

  wait-AreBounded :
      (t now : ℕ) (rows : List UserSession)
      → All (IsBounded ttl now) rows
      → All (IsBounded ttl (now + t)) rows
  wait-AreBounded t now rows h =
      All-map (IsBounded ttl now) (IsBounded ttl (now + t)) rows
        (λ row b. record { seen = omega (arith, b.seen); ends = b.ends }) h

-- What happens to the sessions: the calls of the service, and the time that passes.
pub data SessionCall : Type 0 where
  issues : (user_id : ℕ) (user_agent ip_address : Option String) (token : String) → SessionCall
  resolves revokes : (token : Option String) → SessionCall
  waits : (seconds : ℕ) → SessionCall

-- A call of `resolve` that raises leaves the database as it is.
abbrev pub kept : Database → Result DomainError ((User × Bool) × Database) → Database
kept db (ok (_, after)) = after
kept db (error _) = db

module _ (token_hash : String → String) (ttl : ℕ) where
  unfoldable pub call : SessionCall → Database → Database
  call (issues user_id user_agent ip_address token) db =
      issue token_hash ttl user_id user_agent ip_address token db
  call (resolves token) db = kept db (resolve token_hash ttl token db)
  call (revokes token) db = revoke token_hash ttl token db
  call (waits seconds) db = record db { now = db.now + seconds }

  unfoldable pub call_all : List SessionCall → Database → Database
  call_all [] db = db
  call_all (c ∷ cs) db = call_all cs (call c db)

  kept-AreBounded :
      (db : Database) (r : Result DomainError ((User × Bool) × Database))
      → AreBounded ttl db
      → AreBoundedAfter ttl r
      → AreBounded ttl (kept db r)
  kept-AreBounded db (ok x) h k = k
  kept-AreBounded db (error e) h k = h

  call-AreBounded :
      (c : SessionCall) (db : Database) → AreBounded ttl db → AreBounded ttl (call c db)
  unfolding call
  call-AreBounded (issues user_id user_agent ip_address token) db h =
      issue-AreBounded token_hash ttl user_id user_agent ip_address token db h
  call-AreBounded (resolves token) db h =
      kept-AreBounded db (resolve token_hash ttl token db) h
        (resolve-AreBounded token_hash ttl token db h)
  call-AreBounded (revokes token) db h = revoke-AreBounded token_hash ttl token db h
  call-AreBounded (waits seconds) db h =
      wait-AreBounded token_hash ttl seconds db.now db.user_sessions h

  -- If every session was last used in the past and ends at most `ttl` seconds after its last use,
  -- then that is so after any sequence of issues, resolutions, revocations and waits.
  pub call_all-AreBounded :
      (cs : List SessionCall) (db : Database) → AreBounded ttl db → AreBounded ttl (call_all cs db)
  unfolding call_all
  call_all-AreBounded [] db h = h
  call_all-AreBounded (c ∷ cs) db h = call_all-AreBounded cs (call c db) (call-AreBounded c db h)
