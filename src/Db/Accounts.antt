-- ===== src/Db/Accounts.antt =====
-- The account tables of app/db/models.py.
use hate_speech_rag_service.Common.{ℕ, Bool, Option, String, List}

pub record User : Type 0 where
  pub id : ℕ
  pub google_sub : String
  pub email : String
  pub email_verified : Bool
  pub display_name : Option String
  pub avatar_url : Option String
  pub status : String
  pub created_at : ℕ
  pub last_login_at : Option ℕ

pub record UserSession : Type 0 where
  pub id : ℕ
  pub user_id : ℕ
  pub session_token_hash : String
  pub user_agent : Option String
  pub ip_address : Option String
  pub created_at : ℕ
  pub last_seen_at : ℕ
  pub expires_at : ℕ
  pub revoked_at : Option ℕ

pub record UserApiKey : Type 0 where
  pub id : ℕ
  pub user_id : ℕ
  pub provider : String
  pub encrypted_key : List ℕ
  pub key_fingerprint : String
  pub is_valid : Bool
  pub last_validated_at : Option ℕ
  pub last_validation_error : Option String
  pub created_at : ℕ
  pub updated_at : ℕ
