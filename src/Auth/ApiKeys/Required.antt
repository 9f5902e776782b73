-- ===== src/Auth/ApiKeys/Required.antt =====
-- What a stored key gives, and when a job may start.
use hate_speech_rag_service.Common.{
  ℕ, suc, ◌≤◌, String, Bool, true, false, Option, none, some, List, [], ◌∷◌, ◌++◌, ◌==◌, nat_Eq,
  string_Eq, find?, any, count, update_where, ◌≡◌, refl, arith, ==_refl, ◌∙◌, and_true,
}
use hate_speech_rag_service.Common.Errors.{DomainError, Result, ok, error}
use hate_speech_rag_service.Db.Accounts.{UserApiKey}
use hate_speech_rag_service.Db.Database.{Database}
use hate_speech_rag_service.Auth.ApiKeys.{
  is_supported, is_key_of, key_row, new_key, accept_key, store_key, put,
}

-- A key of the provider that counts as valid.
pub record HasValidKey (user_id : ℕ) (provider : String) (db : Database) : Type 0 where
  pub row : UserApiKey
  pub found : key_row user_id provider db.user_api_keys ≡ some row
  pub valid : row.is_valid ≡ true

module _ (user_id : ℕ) (provider : String) where
  key_row-none :
      (rows : List UserApiKey)
      → any (is_key_of user_id provider) rows ≡ false
      → key_row user_id provider rows ≡ none
  unfolding key_row
  key_row-none [] h = refl
  key_row-none (x ∷ xs) h = ground (arith, key_row-none xs)

  key_row-append :
      (rows : List UserApiKey) (row : UserApiKey)
      → is_key_of user_id provider row ≡ true
      → key_row user_id provider (rows ++ row ∷ []) ≡ some row
  unfolding key_row
  key_row-append [] row h = ground (arith, h)
  key_row-append (x ∷ xs) row h = ground (arith, key_row-append xs row h)

  count-any :
      (rows : List UserApiKey)
      → count (is_key_of user_id provider) rows ≤ 0
      → any (is_key_of user_id provider) rows ≡ false
  count-any [] h = refl
  count-any (x ∷ xs) h = ground (arith, count-any xs)

  any-update_where :
      (q : UserApiKey → Bool) (f : UserApiKey → UserApiKey) (rows : List UserApiKey)
      → ((row : UserApiKey) → is_key_of user_id provider (f row) ≡ is_key_of user_id provider row)
      → any (is_key_of user_id provider) (update_where q f rows)
        ≡ any (is_key_of user_id provider) rows
  any-update_where q f [] same = refl
  any-update_where q f (x ∷ xs) same = ground (arith, same x, any-update_where q f xs same)

  first_alone :
      (q : UserApiKey → Bool) (f : UserApiKey → UserApiKey) (x : UserApiKey) (xs : List UserApiKey)
      → ((row : UserApiKey) → is_key_of user_id provider (f row) ≡ is_key_of user_id provider row)
      → count (is_key_of user_id provider) (x ∷ xs) ≤ 1
      → is_key_of user_id provider x ≡ true
      → key_row user_id provider (update_where q f xs) ≡ none
  first_alone q f x xs same few h =
      key_row-none (update_where q f xs)
        (any-update_where q f xs same ∙ count-any xs (ground (arith, h)))

  key_row-update_where :
      (q : UserApiKey → Bool) (f : UserApiKey → UserApiKey) (rows : List UserApiKey)
      (row : UserApiKey)
      → ((x : UserApiKey) → is_key_of user_id provider (f x) ≡ is_key_of user_id provider x)
      → count (is_key_of user_id provider) rows ≤ 1
      → find? (is_key_of user_id provider) rows ≡ some row
      → q row ≡ true
      → key_row user_id provider (update_where q f rows) ≡ some (f row)
  unfolding key_row
  key_row-update_where q f [] row same few found h = ground arith
  key_row-update_where q f (x ∷ xs) row same few found h =
      ground (arith, same x, first_alone q f x xs same few, key_row-update_where q f xs row same)

module _ (validate : String → String → Result DomainError (Unit {0}))
    (encrypt : String → List ℕ) where
  -- The key that the lookup finds in the database is the given one, encrypted, and counts as valid.
  pub record IsStored (user_id : ℕ) (provider api_key : String) (row : UserApiKey)
      (after : Database) : Type 0 where
    pub found : key_row user_id provider after.user_api_keys ≡ some row
    pub encrypted : row.encrypted_key ≡ encrypt api_key
    pub valid : row.is_valid ≡ true

  store_key-IsStored :
      (user_id : ℕ) (provider api_key : String) (db : Database)
      → count (is_key_of user_id provider) db.user_api_keys ≤ 1
      → IsStored user_id provider api_key
          (store_key validate encrypt user_id provider api_key db).0
          (store_key validate encrypt user_id provider api_key db).1
  unfolding store_key
  store_key-IsStored user_id provider api_key db few =
      go (find? (is_key_of user_id provider) db.user_api_keys) refl
    where
      fresh : UserApiKey
      fresh =
          accept_key validate encrypt db.now api_key
            (new_key validate encrypt db.next_id db.now user_id provider)

      outcome : Option UserApiKey → UserApiKey × Database
      outcome none = (
        fresh,
        record db { user_api_keys = db.user_api_keys ++ fresh ∷ []; next_id = suc db.next_id },
      )
      outcome (some row) = (
        accept_key validate encrypt db.now api_key row,
        record db {
          user_api_keys =
              update_where (λ other. other.id == row.id)
                (accept_key validate encrypt db.now api_key) db.user_api_keys;
        },
      )

      go :
          (o : Option UserApiKey)
          → find? (is_key_of user_id provider) db.user_api_keys ≡ o
          → IsStored user_id provider api_key (outcome o).0 (outcome o).1
      go none e = record {
        found =
            key_row-append user_id provider db.user_api_keys fresh
              (and_true (==_refl user_id) (==_refl provider));
        encrypted = refl;
        valid = refl;
      }
      go (some row) e = record {
        found =
            key_row-update_where user_id provider (λ other. other.id == row.id)
              (accept_key validate encrypt db.now api_key) db.user_api_keys row (λ x. refl) few e
              (==_refl row.id);
        encrypted = refl;
        valid = refl;
      }

  -- What `put` must lead to.
  abbrev pub Stores : ℕ → String → String → Result DomainError (UserApiKey × Database) → Type 0
  Stores user_id provider api_key (ok (row, after)) = IsStored user_id provider api_key row after
  Stores user_id provider api_key (error _) = ⊥

  -- Where a user has at most one row of a provider, a key of a supported provider that the provider
  -- accepts is stored: the lookup finds it, encrypted, and it counts as valid.
  pub put-Stores :
      (user_id : ℕ) (provider api_key : String) (db : Database)
      → is_supported provider ≡ true
      → validate provider api_key ≡ ok tt
      → count (is_key_of user_id provider) db.user_api_keys ≤ 1
      → Stores user_id provider api_key (put validate encrypt user_id provider api_key db)
  unfolding put
  put-Stores user_id provider api_key db h k few =
      rw (h, put, k) (store_key-IsStored user_id provider api_key db few)
