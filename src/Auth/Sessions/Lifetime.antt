-- ===== src/Auth/Sessions/Lifetime.antt =====
-- How long a session lives: from its issue, and after its revocation.
use hate_speech_rag_service.Common.{
  ℕ, ◌+◌, ◌-◌, ◌*◌, String, Bool, true, false, not, Option, none, some, List, [], ◌∷◌, ◌++◌, ltb,
  leb, ◌==◌, nat_Eq, string_Eq, find?, any, update_where, ◌≡◌, ◌≢◌, refl, ap, ◌∙◌, arith, ==_refl,
  ==_ne, Option-cases, inl, inr, is_some, if◌then◌else◌,
}
use hate_speech_rag_service.Common.Errors.{DomainError, Result, ok, error}
use hate_speech_rag_service.Db.Accounts.{User, UserSession}
use hate_speech_rag_service.Db.Database.{Database}
use hate_speech_rag_service.Auth.Sessions.{
  issue, new_session, session_of, admit, resolve, revoke, given, is_aging, is_over, session_expired,
  session_invalid, not_logged_in, revoked,
}

find?-append {ℓ} :
    {A : Type ℓ} (p : A → Bool) (xs : List A) (x : A)
    → any p xs ≡ false
    → p x ≡ true
    → find? p (xs ++ x ∷ []) ≡ some x
find?-append p [] x h k = ground arith
find?-append p (y ∷ ys) x h k = ground (arith, find?-append p ys x)

find?-update_where {ℓ} :
    {A : Type ℓ} (p q : A → Bool) (f : A → A) (xs : List A) (x : A)
    → ((y : A) → p (f y) ≡ p y)
    → find? p xs ≡ some x
    → q x ≡ true
    → find? p (update_where q f xs) ≡ some (f x)
find?-update_where p q f [] x same h k = ground arith
find?-update_where p q f (y ∷ ys) x same h k =
    ground (arith, same y, find?-update_where p q f ys x same)

given_text : (token : String) → token ≢ "" → given (some token) ≡ some token
given_text token h = ground (arith, ==_ne token "" h)

module _ (token_hash : String → String) (ttl : ℕ) where
  session_of-issue :
      (user_id : ℕ) (user_agent ip_address : Option String) (token : String) (db : Database)
      → any (λ row. row.session_token_hash == token_hash token) db.user_sessions ≡ false
      → session_of token_hash ttl token
          (issue token_hash ttl user_id user_agent ip_address token db)
        ≡ some (new_session token_hash ttl user_id user_agent ip_address token db)
  unfolding session_of issue
  session_of-issue user_id user_agent ip_address token db fresh =
      find?-append (λ row. row.session_token_hash == token_hash token) db.user_sessions
        (new_session token_hash ttl user_id user_agent ip_address token db) fresh
        (==_refl (token_hash token))

  resolve_found :
      (token : Option String) (text : String) (row : UserSession) (db : Database)
      → given token ≡ some text
      → session_of token_hash ttl text db ≡ some row
      → resolve token_hash ttl token db ≡ admit token_hash ttl row db
  unfolding resolve
  resolve_found token text row db h k = rw (resolve, h, k) refl

  -- The clock of the database, `t` seconds later.
  abbrev pub later : ℕ → Database → Database
  later t db = record db { now = db.now + t }

  -- What `resolve` returns or raises, without the database.
  abbrev pub reply :
      Result DomainError ((User × Bool) × Database) → Result DomainError (User × Bool)
  reply (ok (answer, _)) = ok answer
  reply (error e) = error e

  admit_lem :
      (row : UserSession) (user : User) (db : Database)
      → find? (λ u. u.id == row.user_id) db.users ≡ some user
      → (user.status == "suspended") ≡ false
      → reply (admit token_hash ttl row db)
        ≡ (if is_over db.now row then error session_expired else ok (user, is_aging ttl db.now row))
  unfolding admit
  admit_lem row user db h k = ground (arith, h, k)

  shift_lem : (n t : ℕ) → ((n + ttl) - (n + t)) ≡ ttl - t
  shift_lem n t = omega arith

  shift_leb : (n t : ℕ) → leb (n + ttl) (n + t) ≡ not (ltb t ttl)
  shift_leb n t = ground arith

  -- The user and whether the cookie is renewed, if the session still runs.
  abbrev pub answer : Bool → User → Bool → Result DomainError (User × Bool)
  answer true user renewed = ok (user, renewed)
  answer false user renewed = error session_expired

  answer-not :
      (b renewed : Bool) (user : User)
      → answer b user renewed ≡ (if not b then error session_expired else ok (user, renewed))
  answer-not true renewed user = refl
  answer-not false renewed user = refl

  lifetime_lem :
      (row : UserSession) (n t : ℕ) (user : User)
      → row.expires_at ≡ n + ttl
      → row.revoked_at ≡ none
      → (if is_over (n + t) row then error session_expired else ok (user, is_aging ttl (n + t) row))
        ≡ answer (ltb t ttl) user (ltb (2 * (ttl - t)) ttl)
  lifetime_lem row n t user e r =
      rw (answer-not (ltb t ttl) (ltb (2 * (ttl - t)) ttl) user, r, e, shift_lem n t, shift_leb n t)
        refl

  -- For a token that no session has and a user whose account is not suspended: a new session is
  -- admitted for exactly `ttl` seconds, and the cookie is renewed in the second half of them.
  pub issue_lifetime :
      (user_id : ℕ) (user_agent ip_address : Option String) (token : String) (user : User) (t : ℕ)
      (db : Database)
      → token ≢ ""
      → any (λ row. row.session_token_hash == token_hash token) db.user_sessions ≡ false
      → find? (λ u. u.id == user_id) db.users ≡ some user
      → (user.status == "suspended") ≡ false
      → reply (
          resolve token_hash ttl
            (some token)
            (later t (issue token_hash ttl user_id user_agent ip_address token db)))
        ≡ answer (ltb t ttl) user (ltb (2 * (ttl - t)) ttl)
  unfolding issue session_of
  issue_lifetime user_id user_agent ip_address token user t db e fresh h k =
      let issued = issue token_hash ttl user_id user_agent ip_address token db in
      let row = new_session token_hash ttl user_id user_agent ip_address token db in
      ap reply (
        resolve_found (some token) token row (later t issued) (given_text token e)
          (session_of-issue user_id user_agent ip_address token db fresh))
      ∙ admit_lem row user (later t issued) h k
      ∙ lifetime_lem row db.now t user refl refl

  abbrev pub status_of : Result DomainError ((User × Bool) × Database) → ℕ
  status_of (ok _) = 200
  status_of (error e) = e.status_code

  over_lem :
      (row : UserSession) (db : Database)
      → is_some row.revoked_at ≡ true
      → admit token_hash ttl row db ≡ error session_expired
  unfolding admit
  over_lem row db h = ground (arith, h)

  session_of-revoke :
      (token : Option String) (text : String) (row : UserSession) (db : Database)
      → given token ≡ some text
      → session_of token_hash ttl text db ≡ some row
      → session_of token_hash ttl text (revoke token_hash ttl token db)
        ≡ some (revoked token_hash ttl db.now row)
  unfolding revoke session_of
  session_of-revoke token text row db e r =
      rw (revoke, e, r)
        (find?-update_where (λ other. other.session_token_hash == token_hash text)
          (λ other. other.id == row.id) (revoked token_hash ttl db.now) db.user_sessions row
          (λ y. refl) r (==_refl row.id))

  session_of-revoke_unknown :
      (token : Option String) (text : String) (db : Database)
      → given token ≡ some text
      → session_of token_hash ttl text db ≡ none
      → session_of token_hash ttl text (revoke token_hash ttl token db) ≡ none
  unfolding revoke session_of
  session_of-revoke_unknown token text db e n = rw (revoke, e, n) n

  resolve_missing :
      (token : Option String) (db : Database)
      → given token ≡ none
      → resolve token_hash ttl token db ≡ error not_logged_in
  unfolding resolve
  resolve_missing token db e = rw (resolve, e) refl

  resolve_unknown :
      (token : Option String) (text : String) (db : Database)
      → given token ≡ some text
      → session_of token_hash ttl text db ≡ none
      → resolve token_hash ttl token db ≡ error session_invalid
  unfolding resolve
  resolve_unknown token text db e n = rw (resolve, e, n) refl

  -- A token that has been revoked is rejected with the status 401 from then on.
  pub revoke-resolve :
      (token : Option String) (t : ℕ) (db : Database)
      → status_of (resolve token_hash ttl token (later t (revoke token_hash ttl token db))) ≡ 401
  unfolding session_of
  revoke-resolve token t db =
      let after = later t (revoke token_hash ttl token db) in
      elim (Option-cases (given token)) [
        | inl e ↦ ap status_of (resolve_missing token after e)
        | inr (text, e) ↦ elim (Option-cases (session_of token_hash ttl text db)) [
          | inl n ↦
              ap status_of
                (resolve_unknown token text after e (session_of-revoke_unknown token text db e n))
          | inr (row, r) ↦
              let gone = revoked token_hash ttl db.now row in
              ap status_of
                (resolve_found token text gone after e (session_of-revoke token text row db e r))
              ∙ ap status_of (over_lem gone after refl)
        ]
      ]
