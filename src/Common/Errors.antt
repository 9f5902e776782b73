-- ===== src/Common/Errors.antt =====
-- DomainError of app/core/errors.py, and a call that returns or raises.
use Prim.Native.Nat.{ℕ}
use Prim.Native.String.{String}
use mathlib.Core.Bool.{Bool, true, false}

pub record DomainError : Type 0 where
  pub code : String
  pub message : String
  pub status_code : ℕ
  pub retryable : Bool

pub data Result {ℓ κ} (E : Type ℓ) (A : Type κ) : Type (ℓ ⊔ κ) where
  ok : A → Result E A
  error : E → Result E A

abbrev pub domain_error : String → String → ℕ → DomainError
domain_error code message status_code = record {
  code = code;
  message = message;
  status_code = status_code;
  retryable = false;
}

abbrev pub is_ok {ℓ κ} : {E : Type ℓ} {A : Type κ} → Result E A → Bool
is_ok (ok _) = true
is_ok (error _) = false
