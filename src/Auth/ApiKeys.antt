-- ===== src/Auth/ApiKeys.antt =====
-- UserApiKeyService, require_valid_api_keys and decrypt_api_keys_for_job of app/auth/services.py. The
-- check of a key at its provider and the encryption of app/auth/crypto.py are parameters.
pub mod Required
use Prim.Native.String
use hate_speech_rag_service.Common.{
  ℕ, suc, String, Bool, true, false, not, ◌&&◌, ◌||◌, Option, none, some, List, [], ◌∷◌, ◌++◌, ◌==◌,
  nat_Eq, string_Eq, if◌then◌else◌, find?, filter, ltb, any, update_where, is_none, or_else,
}
use hate_speech_rag_service.Common.Errors.{DomainError, domain_error, Result, ok, error}
use hate_speech_rag_service.Db.Accounts.{UserApiKey}
use hate_speech_rag_service.Db.Database.{Database}

-- `sorted(SUPPORTED_KEY_PROVIDERS)`
abbrev pub supported_key_providers : List String
supported_key_providers = "anthropic" ∷ "upstage" ∷ []

abbrev pub is_supported : String → Bool
is_supported provider = any (λ p. p == provider) supported_key_providers

abbrev pub provider_unsupported : DomainError
provider_unsupported = domain_error "API_KEY_PROVIDER_UNSUPPORTED" "지원하지 않는 API 키 제공자입니다." 400

abbrev pub not_configured : DomainError
not_configured = domain_error "API_KEY_NOT_CONFIGURED" "Anthropic과 Upstage API 키를 모두 등록해주세요." 422

abbrev pub key_invalid : DomainError
key_invalid = domain_error "API_KEY_INVALID" "등록된 API 키를 다시 확인해주세요." 422

abbrev pub is_key_of : ℕ → String → UserApiKey → Bool
is_key_of user_id provider row = row.user_id == user_id && row.provider == provider

-- `{row.provider: row for row in …}` read at a provider: the last of the rows counts.
unfoldable pub key_row : ℕ → String → List UserApiKey → Option UserApiKey
key_row user_id provider [] = none
key_row user_id provider (row ∷ rows) =
    or_else (key_row user_id provider rows)
      (if is_key_of user_id provider row then some row else none)

-- The row, or the error, for one of the two providers.
abbrev pub is_invalid : Option UserApiKey → Bool
is_invalid none = false
is_invalid (some row) = not row.is_valid

unfoldable pub require_valid_api_keys : ℕ → Database → Result DomainError (Unit {0})
unfolding key_row
require_valid_api_keys user_id db =
    if any (λ provider. is_none (key_row user_id provider db.user_api_keys)) supported_key_providers
    then error not_configured
    else if any (λ provider. is_invalid (key_row user_id provider db.user_api_keys))
        supported_key_providers
    then error key_invalid
    else ok tt

-- `api_key[-4:]`
unfoldable pub last_four : String → String
last_four String.[] = ""
last_four (String.◌∷◌ c s) =
    let rest = last_four s in if ltb (String.count s) 4 then String.◌∷◌ c s else rest

unfoldable pub fingerprint : String → String
unfolding last_four
fingerprint api_key = String.◌++◌ "••••" (last_four api_key)

module _ (validate : String → String → Result DomainError (Unit {0}))
    (encrypt : String → List ℕ) where
  abbrev pub new_key : ℕ → ℕ → ℕ → String → UserApiKey
  new_key id now user_id provider = record {
    id = id;
    user_id = user_id;
    provider = provider;
    encrypted_key = [];
    key_fingerprint = "";
    is_valid = false;
    last_validated_at = none;
    last_validation_error = none;
    created_at = now;
    updated_at = now;
  }

  -- The assignments of `put`, and the column that every update sets.
  abbrev pub accept_key : ℕ → String → UserApiKey → UserApiKey
  accept_key now api_key row = record row {
    encrypted_key = encrypt api_key;
    key_fingerprint = fingerprint api_key;
    is_valid = true;
    last_validated_at = some now;
    last_validation_error = none;
    updated_at = now;
  }

  -- What `put` writes once the provider has accepted the key.
  unfoldable pub store_key : ℕ → String → String → Database → UserApiKey × Database
  store_key user_id provider api_key db =
      elim (find? (is_key_of user_id provider) db.user_api_keys) [
        | none ↦
            let row = accept_key db.now api_key (new_key db.next_id db.now user_id provider) in
            (
              row,
              record db { user_api_keys = db.user_api_keys ++ row ∷ []; next_id = suc db.next_id },
            )
        | some row ↦ (
          accept_key db.now api_key row,
          record db {
            user_api_keys =
                update_where (λ other. other.id == row.id) (accept_key db.now api_key)
                  db.user_api_keys;
          },
        )
      ]

  unfoldable pub put : ℕ → String → String → Database → Result DomainError (UserApiKey × Database)
  unfolding store_key
  put user_id provider api_key db =
      if not (is_supported provider)
      then error provider_unsupported
      else elim (validate provider api_key) [
        | error e ↦ error e
        | ok _ ↦ ok (store_key user_id provider api_key db)
      ]

-- The row that `scalar` gives is deleted.
unfoldable pub delete : ℕ → String → Database → Result DomainError Database
delete user_id provider db =
    if not (is_supported provider)
    then error provider_unsupported
    else elim (find? (is_key_of user_id provider) db.user_api_keys) [
      | none ↦ ok db
      | some row ↦ ok (record db {
        user_api_keys = filter (λ other. not (other.id == row.id)) db.user_api_keys;
      })
    ]
