-- ===== src/Common/Json.antt =====
-- JSON values: what `json.loads` returns and what the JSON columns hold. A number that is no natural
-- number is kept as its text.
use Prim.Native.Nat.{ℕ}
use Prim.Native.String.{String}
use mathlib.Core.Bool.{Bool, true, false}
use mathlib.Core.List.{List, [], ◌∷◌}
use mathlib.Core.Option
use mathlib.Core.Option.{Option, none, some}
use hate_speech_rag_service.Common.Tests.{if◌then◌else◌, or_else}
use hate_speech_rag_service.Common.Equality.{◌==◌, string_Eq}

mutual
  pub data Json : Type 0 where
    null : Json
    bool : Bool → Json
    int : ℕ → Json
    number : String → Json
    str : String → Json
    arr : Items → Json
    obj : Fields → Json

  pub data Items : Type 0 where
    nil : Items
    cons : Json → Items → Items

  pub data Fields : Type 0 where
    end : Fields
    field : String → Json → Fields → Fields

-- A JSON column that holds an object: its entries in order.
abbrev pub JsonDict : Type 0
JsonDict = List (String × Json)

-- `payload.get(key)`: of a key that stands twice, `json.loads` keeps the last value.
unfoldable pub get_field : String → Fields → Option Json
get_field key end = none
get_field key (field k v rest) = or_else (get_field key rest) (if k == key then some v else none)

abbrev pub is_list : Json → Bool
is_list (arr _) = true
is_list _ = false

abbrev pub is_null : Json → Bool
is_null null = true
is_null _ = false

-- The texts of a list that holds nothing else.
abbrev pub strings : Items → Option (List String)
strings nil = some []
strings (cons (str s) rest) = Option.map (λ ss. s ∷ ss) (strings rest)
strings (cons _ rest) = none
