-- ===== src/Analysis/Validator.antt =====
-- app/analysis/prompt_validator.py: what an LLM's answer must satisfy before it is stored.
pub mod Rules
use Prim.Native.Char.{code}
use Prim.Native.String
use Prim.Native.Nat.{Ordering}
use hate_speech_rag_service.Common.{
  ℕ, String, Bool, true, false, not, ◌&&◌, ◌||◌, Option, none, some, List, [], ◌∷◌, ◌==◌, string_Eq,
  if◌then◌else◌, any, filter, map, length, leb, ltb, is_none, is_some,
}
use hate_speech_rag_service.Common.Json.{
  Json, Items, Fields, null, bool, str, arr, obj, nil, get_field, is_list, is_null, strings,
}

abbrev pub required_output_fields : List String
required_output_fields =
    "input_text" ∷ "is_hate_speech" ∷ "categories" ∷ "target_group" ∷ "hate_type" ∷ "reasoning"
    ∷ "similar_cases_used" ∷ "definition_docs_used" ∷ []

abbrev pub allowed_categories : List String
allowed_categories =
    "gender" ∷ "age" ∷ "identity" ∷ "profanity" ∷ "state_authority" ∷ "non_state_authority"
    ∷ "state_regime" ∷ "non_state_regime" ∷ "state_community" ∷ "non_state_community" ∷ "no_target"
    ∷ "other" ∷ "unclassified" ∷ []

-- The messages of the source, with the names that two of them list.
pub data ValidationError : Type 0 where
  missing_fields unknown_categories : List String → ValidationError
  is_hate_speech_must_be_bool categories_must_be_string_list : ValidationError
  non_hate_must_use_only_unclassified hate_must_have_at_least_one_category : ValidationError
  hate_must_not_use_unclassified other_must_be_exclusive : ValidationError
  no_target_conflicts_with_target_category no_target_requires_null_target_group : ValidationError
  similar_cases_used_must_be_list definition_docs_used_must_be_list : ValidationError
  reasoning_must_be_korean : ValidationError

pub data ValidationWarning : Type 0 where
  target_group_missing_for_targeted_category : ValidationWarning

pub record ValidationResult : Type 0 where
  pub valid : Bool
  pub errors : List ValidationError
  pub warnings : List ValidationWarning

-- `c in names`
abbrev pub contains : List String → String → Bool
contains names c = any (λ name. name == c) names

abbrev pub is_bool : Option Json → Bool
is_bool (some (bool _)) = true
is_bool _ = false

abbrev pub is_true : Option Json → Bool
is_true (some (bool true)) = true
is_true _ = false

abbrev pub is_false : Option Json → Bool
is_false (some (bool false)) = true
is_false _ = false

-- `_is_string_list`, with the texts.
abbrev pub string_list : Option Json → Option (List String)
string_list (some (arr items)) = strings items
string_list _ = none

abbrev pub texts : Option (List String) → List String
texts none = []
texts (some names) = names

-- `payload.get(key) is None`: a missing key and a null are alike.
abbrev pub is_missing : Option Json → Bool
is_missing none = true
is_missing (some v) = is_null v

-- `payload.get(key, [])`
abbrev pub is_list_or_missing : Option Json → Bool
is_list_or_missing none = true
is_list_or_missing (some v) = is_list v

abbrev pub only_unclassified : List String → Bool
only_unclassified (name ∷ []) = name == "unclassified"
only_unclassified _ = false

abbrev pub is_empty : List String → Bool
is_empty [] = true
is_empty (_ ∷ _) = false

-- `re.search(r"[가-힣]", text)`
unfoldable pub has_hangul : String → Bool
has_hangul String.[] = false
has_hangul (String.◌∷◌ c s) = leb 0xAC00 (code c) && leb (code c) 0xD7A3 || has_hangul s

abbrev pub is_korean : Option Json → Bool
is_korean (some (str text)) = has_hangul text
is_korean _ = false

-- `sorted(set(names))`
abbrev pub insert_name : String → List String → List String
insert_name s [] = s ∷ []
insert_name s (t ∷ ts) = elim (String.compare s t) [
  | Ordering.lt ↦ s ∷ t ∷ ts
  | Ordering.eq ↦ t ∷ ts
  | Ordering.gt ↦ t ∷ insert_name s ts
]

abbrev pub sorted_set : List String → List String
sorted_set [] = []
sorted_set (s ∷ ss) = insert_name s (sorted_set ss)

abbrev pub is_untargeted : String → Bool
is_untargeted c = c == "profanity" || c == "no_target"

-- Each `if` of the source with the error that it appends.
unfoldable pub checks : Fields → List (Bool × ValidationError)
checks payload =
    let missing = filter (λ name. is_none (get_field name payload)) required_output_fields in
    let is_hate_speech = get_field "is_hate_speech" payload in
    let string_categories = string_list (get_field "categories" payload) in
    let categories = texts string_categories in
    let unknown = filter (λ c. not (contains allowed_categories c)) categories in
    let hate = is_true is_hate_speech in
    let target_missing = is_missing (get_field "target_group" payload) in
    (not (is_empty missing), missing_fields missing)
    ∷ (not (is_bool is_hate_speech), is_hate_speech_must_be_bool)
    ∷ (is_none string_categories, categories_must_be_string_list)
    ∷ (not (is_empty unknown), unknown_categories (sorted_set unknown))
    ∷ (
      is_false is_hate_speech && not (only_unclassified categories),
      non_hate_must_use_only_unclassified,
    )
    ∷ (hate && is_empty categories, hate_must_have_at_least_one_category)
    ∷ (hate && contains categories "unclassified", hate_must_not_use_unclassified)
    ∷ (hate && (contains categories "other" && ltb 1 (length categories)), other_must_be_exclusive)
    ∷ (
      hate && (contains categories "no_target" && any (λ c. not (is_untargeted c)) categories),
      no_target_conflicts_with_target_category,
    )
    ∷ (
      hate && (contains categories "no_target" && not target_missing),
      no_target_requires_null_target_group,
    )
    ∷ (
      not (is_list_or_missing (get_field "similar_cases_used" payload)),
      similar_cases_used_must_be_list,
    )
    ∷ (
      not (is_list_or_missing (get_field "definition_docs_used" payload)),
      definition_docs_used_must_be_list,
    )
    ∷ (not (is_korean (get_field "reasoning" payload)), reasoning_must_be_korean)
    ∷ []

abbrev pub reported : List (Bool × ValidationError) → List ValidationError
reported [] = []
reported ((b, e) ∷ rest) = if b then e ∷ reported rest else reported rest

abbrev pub has_none : List ValidationError → Bool
has_none [] = true
has_none (_ ∷ _) = false

unfoldable pub validate_fields : Fields → ValidationResult
unfolding checks
validate_fields payload =
    let errors = reported (checks payload) in
    let categories = texts (string_list (get_field "categories" payload)) in
    record {
      valid = has_none errors;
      errors = errors;
      warnings =
          if is_true (get_field "is_hate_speech" payload)
            && (is_missing (get_field "target_group" payload)
                && any (λ c. not (is_untargeted c)) categories)
          then target_group_missing_for_targeted_category ∷ []
          else [];
    }

-- On a value that is no object the source's `in` or `.get` raises TypeError or AttributeError, which
-- is `none` here. (Of a list or a text, `in` still works, and then `.get` raises.)
unfoldable pub validate_classification_output : Json → Option ValidationResult
unfolding validate_fields
validate_classification_output (obj payload) = some (validate_fields payload)
validate_classification_output _ = none
