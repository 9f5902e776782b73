-- ===== src/Common/Equality.antt =====
-- Python's `==` on the types that the program compares, as one interface.
use Prim.Native.Nat.{ℕ}
use Prim.Native.String.{String}
use text.Mathlib.Text
use text.Mathlib.TextEquality.{eq_iff}
use mathlib.Core.Path.{◌≡◌, refl}
use mathlib.Core.Logic.{◌↔◌, ◌≢◌}
use mathlib.Core.Bool.{Bool, true, false}
use mathlib.Core.Option.{Option, none, some}
use native.Mathlib.Omega.{arith}
use hate_speech_rag_service.Common.Tests.{nat_eq}

-- A type whose values the program compares: the test, and that it decides equality.
pub record Eq {ℓ} (Value : Type ℓ) : Type ℓ where
  pub same : Value → Value → Bool
  pub same_iff : (x y : Value) → (same x y ≡ true) ↔ (x ≡ y)

pub nat_eq_iff : (a b : ℕ) → (nat_eq a b ≡ true) ↔ (a ≡ b)
nat_eq_iff a b = ground arith

instance abbrev pub string_Eq : Eq String
string_Eq = record { same_iff = eq_iff; same = Text.◌==◌ }

instance abbrev pub nat_Eq : Eq ℕ
nat_Eq = record { same_iff = nat_eq_iff; same = nat_eq }

module _ {ℓ} {Value : Type ℓ} ⦃eq : Eq Value⦄ where
  infix 50 ◌==◌
  abbrev pub ◌==◌ : Value → Value → Bool
  x == y = eq.same x y

  pub ==_iff : (x y : Value) → ((x == y) ≡ true) ↔ (x ≡ y)
  ==_iff = eq.same_iff

  pub ==_refl : (x : Value) → (x == x) ≡ true
  ==_refl x = (eq.same_iff x x).1 refl

  pub ==_true : (x y : Value) → (x == y) ≡ true → x ≡ y
  ==_true x y = (eq.same_iff x y).0

  pub ==_ne : (x y : Value) → x ≢ y → (x == y) ≡ false
  ==_ne x y h = ground (arith, eq.same_iff x y)

  abbrev pub option_eq : Option Value → Option Value → Bool
  option_eq none none = true
  option_eq (some x) (some y) = x == y
  option_eq _ _ = false

  pub option_eq_iff : (x y : Option Value) → (option_eq x y ≡ true) ↔ (x ≡ y)
  option_eq_iff none none = ground arith
  option_eq_iff none (some y) = ground arith
  option_eq_iff (some x) none = ground arith
  option_eq_iff (some x) (some y) = ground (arith, eq.same_iff x y)
