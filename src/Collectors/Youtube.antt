-- ===== src/Collectors/Youtube.antt =====
-- `parse_duration_seconds` and `_youtube_error` of app/external/youtube.py. A digit is one of ASCII. A
-- reply of another shape than the documented one, at which the source raises, counts as one without a
-- reason.
use Prim.Native.Char.{Char, code}
use hate_speech_rag_service.Common.{
  ℕ, ◌+◌, ◌-◌, ◌*◌, String, Bool, true, false, ◌&&◌, ◌||◌, Option, none, some, ◌≡◌, refl, ◌==◌,
  string_Eq, if◌then◌else◌, leb, nat_eq,
}
use hate_speech_rag_service.Common.Json.{Json, obj, arr, str, cons, get_field}
use hate_speech_rag_service.Common.Errors.{DomainError, domain_error}

abbrev pub is_digit : Char → Bool
is_digit c = leb 48 (code c) && leb (code c) 57

-- The number that the leading digits write, whether there is one, and what follows.
unfoldable pub digits : ℕ → Bool → String → (ℕ × Bool) × String
digits n read String.[] = ((n, read), "")
digits n read (String.◌∷◌ c s) =
    let later = digits (n * 10 + (code c - 48)) true s in
    if is_digit c then later else ((n, read), String.◌∷◌ c s)

abbrev pub after_unit : Char → (ℕ × Bool) × String → String → ℕ × String
after_unit unit ((n, true), String.◌∷◌ c rest) whole =
    if nat_eq (code c) (code unit) then (n, rest) else (0, whole)
after_unit unit _ whole = (0, whole)

-- `(?:(\d+)U)?`: the number, or 0 where the part is missing.
unfoldable pub part : Char → String → ℕ × String
unfolding digits
part unit s = after_unit unit (digits 0 false s) s

abbrev pub after_char : Char → String → Option String
after_char wanted String.[] = none
after_char wanted (String.◌∷◌ c s) = if nat_eq (code c) (code wanted) then some s else none

-- The hours, minutes and seconds, which must be all that is left.
unfoldable pub time_seconds : ℕ → String → Option ℕ
unfolding part
time_seconds days s =
    let (hours, s1) = part "H" s in
    let (minutes, s2) = part "M" s1 in
    let (seconds, s3) = part "S" s2 in
    if s3 == "" then some (days * 86400 + hours * 3600 + minutes * 60 + seconds) else none

unfoldable pub parse_duration_seconds : Option String → Option ℕ
unfolding time_seconds part
parse_duration_seconds none = none
parse_duration_seconds (some value) = elim (after_char "P" value) [
  | none ↦ none
  | some s ↦
      let (days, rest) = part "D" s in
      elim (after_char "T" rest) [ none ↦ none | some time ↦ time_seconds days time ]
]

a_day_and_a_minute : parse_duration_seconds (some "P1DT1M") ≡ some 86460
unfolding parse_duration_seconds
a_day_and_a_minute = refl

no_other_order : parse_duration_seconds (some "PT1M1H") ≡ none
unfolding parse_duration_seconds
no_other_order = refl

abbrev pub object_field : String → Option Json → Option Json
object_field key (some (obj fields)) = get_field key fields
object_field key _ = none

abbrev pub first_item : Option Json → Option Json
first_item (some (arr (cons item rest))) = some item
first_item _ = none

abbrev pub text_value : Option Json → Option String
text_value (some (str text)) = some text
text_value _ = none

-- The reason of the first error.
unfoldable pub error_reason : Option Json → Option String
unfolding get_field
error_reason payload =
    text_value
      (object_field "reason" (first_item (object_field "errors" (object_field "error" payload))))

abbrev pub youtube_domain_error : String → String → Bool → DomainError
youtube_domain_error code message retryable = record (domain_error code message 400) {
  retryable = retryable;
}

abbrev pub is_reason : String → Option String → Bool
is_reason wanted none = false
is_reason wanted (some reason) = reason == wanted

unfoldable pub youtube_error : Option Json → ℕ → DomainError
unfolding error_reason
youtube_error payload status_code =
    let reason = error_reason payload in
    if is_reason "quotaExceeded" reason || is_reason "dailyLimitExceeded" reason
    then youtube_domain_error "YOUTUBE_QUOTA_EXCEEDED" "YouTube API quota를 초과했습니다." true
    else if is_reason "rateLimitExceeded" reason || is_reason "userRateLimitExceeded" reason
    then youtube_domain_error "YOUTUBE_RATE_LIMITED" "YouTube API 요청 한도를 초과했습니다." true
    else if is_reason "commentsDisabled" reason || is_reason "disabledComments" reason
    then youtube_domain_error "COMMENTS_DISABLED" "영상의 댓글이 비활성화되어 있습니다." false
    else youtube_domain_error "YOUTUBE_API_ERROR" "YouTube API 요청에 실패했습니다." (leb 500 status_code)
