-- ===== src/Collectors/Transcript.antt =====
-- TranscriptCollector of app/collectors/transcript.py. Times are whole milliseconds.
pub mod Segments
use Prim.Native.String
use Prim.Native.Char.{Char, code}
use hate_speech_rag_service.Common.{
  ℕ, suc, ◌+◌, ◌-◌, String, Bool, true, false, not, ◌&&◌, ◌||◌, Option, none, some, List, [], ◌∷◌,
  ◌++◌, ltb, leb, nat_eq, if◌then◌else◌, any, map, ◌==◌, string_Eq,
}

pub record TranscriptItem : Type 0 where
  pub text : String
  pub start : ℕ
  pub duration : ℕ

-- The characters that Python's `strip` removes.
abbrev pub is_space : Char → Bool
is_space c =
    leb 9 (code c) && leb (code c) 13
    || leb 28 (code c) && leb (code c) 32
    || leb 0x2000 (code c) && leb (code c) 0x200A
    || any (nat_eq (code c))
        (0x85 ∷ 0xA0 ∷ 0x1680 ∷ 0x2028 ∷ 0x2029 ∷ 0x202F ∷ 0x205F ∷ 0x3000 ∷ [])

unfoldable pub lstrip : String → String
lstrip String.[] = ""
lstrip (String.◌∷◌ c s) = let rest = lstrip s in if is_space c then rest else String.◌∷◌ c s

unfoldable pub rstrip : String → String
rstrip String.[] = ""
rstrip (String.◌∷◌ c s) =
    let rest = rstrip s in if rest == "" && is_space c then "" else String.◌∷◌ c rest

unfoldable pub strip : String → String
unfolding lstrip rstrip
strip s = rstrip (lstrip s)

-- `" ".join(texts)`
unfoldable pub join : List String → String
join [] = ""
join (s ∷ []) = s
join (s ∷ t ∷ rest) = String.◌++◌ s (String.◌++◌ " " (join (t ∷ rest)))

-- `.`, `!`, `?`, `…`, `。`, `！`, `？`
abbrev pub is_sentence_end : Char → Bool
is_sentence_end c =
    any (nat_eq (code c)) (0x2E ∷ 0x21 ∷ 0x3F ∷ 0x2026 ∷ 0x3002 ∷ 0xFF01 ∷ 0xFF1F ∷ [])

-- The quotation marks and brackets that may follow.
abbrev pub is_closing : Char → Bool
is_closing c = any (nat_eq (code c)) (0x22 ∷ 0x27 ∷ 0x201D ∷ 0x2019 ∷ 0x300D ∷ 0x300F ∷ 0x29 ∷ [])

unfoldable pub all_closing : String → Bool
all_closing String.[] = true
all_closing (String.◌∷◌ c s) = is_closing c && all_closing s

-- `SENTENCE_END_PATTERN.search`, on a text without a line break at its end.
unfoldable pub ends_sentence : String → Bool
unfolding all_closing
ends_sentence String.[] = false
ends_sentence (String.◌∷◌ c s) = is_sentence_end c && all_closing s || ends_sentence s

abbrev pub joined : List TranscriptItem → String
joined items = join (map (λ item. strip item.text) items)

abbrev pub end_of : TranscriptItem → ℕ
end_of item = item.start + item.duration

abbrev pub first_start : ℕ → List TranscriptItem → ℕ
first_start default [] = default
first_start default (item ∷ _) = item.start

abbrev pub is_empty : List TranscriptItem → Bool
is_empty [] = true
is_empty (_ ∷ _) = false

module _ (max_segment_chars max_segment_seconds : ℕ) where
  -- The text or the time of the items up to `item` is too long. A negative duration is no more than
  -- the limit, as is the 0 that stands for it here.
  unfoldable pub is_too_long : List TranscriptItem → TranscriptItem → Bool
  unfolding join strip
  is_too_long current item =
      ltb max_segment_chars (String.count (joined (current ++ item ∷ [])))
      || ltb max_segment_seconds (end_of item - first_start item.start current)

  -- Whether the items collected so far are given out before the item is added.
  abbrev pub must_flush : List TranscriptItem → TranscriptItem → Bool
  must_flush current item = not (is_empty current) && is_too_long current item

  -- `_segments`, with the items of each segment.
  unfoldable pub segments : List TranscriptItem → List TranscriptItem → List (List TranscriptItem)
  unfolding is_too_long ends_sentence
  segments current [] = if is_empty current then [] else current ∷ []
  segments current (item ∷ rest) = elim (must_flush current item) [
    | true ↦ elim (ends_sentence (strip item.text)) [
      | true ↦ current ∷ (item ∷ []) ∷ segments [] rest
      | false ↦ current ∷ segments (item ∷ []) rest
    ]
    | false ↦ elim (ends_sentence (strip item.text)) [
      | true ↦ (current ++ item ∷ []) ∷ segments [] rest
      | false ↦ segments (current ++ item ∷ []) rest
    ]
  ]

-- `_segment`, of a segment that starts with `first`.
unfoldable pub segment : TranscriptItem → List TranscriptItem → (ℕ × ℕ) × String
unfolding join strip
segment first rest = ((first.start, last_end first rest), joined (first ∷ rest))
  where
    last_end : TranscriptItem → List TranscriptItem → ℕ
    last_end x [] = end_of x
    last_end x (y ∷ ys) = last_end y ys
