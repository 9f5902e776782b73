-- ===== src/Analysis/Reply.antt =====
-- `_extract_json` and `_validated_payload` of app/analysis/rag_classifier.py. `loads` is `json.loads`,
-- with `none` for a JSONDecodeError.
pub mod Valid
use Prim.Native.String
use Prim.Native.Char.{Char, code}
use hate_speech_rag_service.Common.{
  String, Bool, true, false, ◌&&◌, ◌||◌, Option, none, some, List, [], ◌∷◌, if◌then◌else◌, nat_eq,
  or_else,
}
use hate_speech_rag_service.Common.Json.{Json, Fields, obj}
use hate_speech_rag_service.Collectors.Transcript.{lstrip, strip}
use hate_speech_rag_service.Analysis.Validator.{
  ValidationError, ValidationResult, validate_classification_output,
}

-- What follows a prefix.
unfoldable pub after_prefix : String → String → Option String
after_prefix String.[] s = some s
after_prefix (String.◌∷◌ c p) String.[] = none
after_prefix (String.◌∷◌ c p) (String.◌∷◌ d s) =
    let later = after_prefix p s in if nat_eq (code c) (code d) then later else none

abbrev pub is_opening : Char → Bool
is_opening c = nat_eq (code c) 0x7B

abbrev pub is_closing : Char → Bool
is_closing c = nat_eq (code c) 0x7D

abbrev pub prepend : Char → Option String → Option String
prepend c none = none
prepend c (some s) = some (String.◌∷◌ c s)

abbrev pub ends_fence : Option String → Bool
ends_fence none = false
ends_fence (some _) = true

-- `.*?\}` with `\s*` and a fence behind it.
unfoldable pub fenced_rest : String → Option String
unfolding lstrip after_prefix
fenced_rest String.[] = none
fenced_rest (String.◌∷◌ c s) =
    let later = fenced_rest s in
    if is_closing c && ends_fence (after_prefix "```" (lstrip s))
    then some (String.◌∷◌ c "")
    else prepend c later

-- `\s*(\{.*?\})\s*` and a fence.
unfoldable pub fenced_object : String → Option String
unfolding fenced_rest
fenced_object String.[] = none
fenced_object (String.◌∷◌ c s) = if is_opening c then prepend c (fenced_rest s) else none

abbrev pub drop_json : String → String
unfolding after_prefix
drop_json s = elim (after_prefix "json" s) [ none ↦ s | some rest ↦ rest ]

abbrev pub fenced_at : Option String → Option String
unfolding fenced_object lstrip
fenced_at none = none
fenced_at (some rest) = fenced_object (lstrip (drop_json rest))

-- The first place where the whole pattern fits.
unfoldable pub fenced : String → Option String
unfolding after_prefix fenced_at
fenced String.[] = none
fenced (String.◌∷◌ c s) =
    let later = fenced s in or_else (fenced_at (after_prefix "```" (String.◌∷◌ c s))) later

-- The text up to its last closing brace.
unfoldable pub up_to_last : String → Option String
up_to_last String.[] = none
up_to_last (String.◌∷◌ c s) =
    or_else (prepend c (up_to_last s)) (if is_closing c then some (String.◌∷◌ c "") else none)

-- The text from its first opening brace to its last closing one, if that comes later.
unfoldable pub braced : String → Option String
unfolding up_to_last
braced String.[] = none
braced (String.◌∷◌ c s) =
    let later = braced s in if is_opening c then prepend c (up_to_last s) else later

unfoldable pub extract_json : String → String
unfolding fenced braced strip
extract_json text =
    let stripped = strip text in
    elim (or_else (fenced stripped) (braced stripped)) [ none ↦ stripped | some s ↦ s ]

pub data OutputError : Type 0 where
  json_parse_failed : OutputError
  invalid : ValidationError → OutputError

-- A payload that is accepted, the errors of one that is not, or an exception: the validator fails on
-- a value that is no object.
pub data Checked : Type 0 where
  accepted : Fields → ValidationResult → Checked
  refused : List OutputError → Checked
  crashed : Checked

abbrev pub errors_of : List ValidationError → List OutputError
errors_of [] = []
errors_of (e ∷ es) = invalid e ∷ errors_of es

abbrev pub judge : Json → Option ValidationResult → Checked
judge (obj payload) (some result) =
    if result.valid then accepted payload result else refused (errors_of result.errors)
judge _ _ = crashed

module _ (loads : String → Option Json) where
  unfoldable pub validated_payload : String → Checked
  unfolding extract_json validate_classification_output
  validated_payload text = elim (loads (extract_json text)) [
    | none ↦ refused (json_parse_failed ∷ [])
    | some payload ↦ judge payload (validate_classification_output payload)
  ]
