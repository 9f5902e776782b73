-- ===== src/Collectors/Transcript/Segments.antt =====
-- The segments of a transcript against its items.
use Prim.Native.String
use hate_speech_rag_service.Common.{
  ℕ, ◌-◌, ◌≤◌, Bool, true, false, List, [], ◌∷◌, ◌++◌, ◌≡◌, ◌⊎◌, inl, inr, refl, arith, All,
  append_assoc, ap, ◌∙◌,
}
use hate_speech_rag_service.Collectors.Transcript.{
  TranscriptItem, joined, end_of, first_start, is_empty, is_too_long, must_flush, segments,
  ends_sentence, strip,
}

abbrev pub concat : List (List TranscriptItem) → List TranscriptItem
concat [] = []
concat (xs ∷ rest) = xs ++ concat rest

module _ (max_chars max_seconds : ℕ) where
  -- A segment is one item, or some items and a last one that stay within both limits.
  pub record IsWithin (before : List TranscriptItem) (last : TranscriptItem) : Type 0 where
    pub chars : String.count (joined (before ++ last ∷ [])) ≤ max_chars
    pub seconds : end_of last - first_start last.start before ≤ max_seconds

  pub record IsSegment (segment : List TranscriptItem) : Type 0 where
    pub before : List TranscriptItem
    pub last : TranscriptItem
    pub items : segment ≡ before ++ last ∷ []
    pub limits : (before ≡ []) ⊎ IsWithin before last

  concat-segments :
      (items current : List TranscriptItem)
      → concat (segments max_chars max_seconds current items) ≡ current ++ items
  unfolding segments
  concat-segments [] [] = refl
  concat-segments [] (c ∷ cs) = refl
  concat-segments (item ∷ rest) current =
      go (must_flush max_chars max_seconds current item) (ends_sentence (strip item.text))
        (concat-segments rest)
    where
      go :
          (flush ends : Bool)
          → ((cur : List TranscriptItem)
              → concat (segments max_chars max_seconds cur rest) ≡ cur ++ rest)
          → concat (elim flush [
            | true ↦ elim ends [
              | true ↦ current ∷ (item ∷ []) ∷ segments max_chars max_seconds [] rest
              | false ↦ current ∷ segments max_chars max_seconds (item ∷ []) rest
            ]
            | false ↦ elim ends [
              | true ↦ (current ++ item ∷ []) ∷ segments max_chars max_seconds [] rest
              | false ↦ segments max_chars max_seconds (current ++ item ∷ []) rest
            ]
          ])
            ≡ current ++ item ∷ rest
      go true true ih = ap (λ xs. current ++ item ∷ xs) (ih [])
      go true false ih = ap (λ xs. current ++ xs) (ih (item ∷ []))
      go false true ih =
          append_assoc current (item ∷ []) _ ∙ ap (λ xs. current ++ item ∷ xs) (ih [])
      go false false ih = ih (current ++ item ∷ []) ∙ append_assoc current (item ∷ []) rest

  within_lem :
      (current : List TranscriptItem) (item : TranscriptItem)
      → is_too_long max_chars max_seconds current item ≡ false
      → IsWithin current item
  unfolding is_too_long
  within_lem current item h = record { chars = ground (arith, h); seconds = ground (arith, h) }

  kept-IsSegment :
      (current : List TranscriptItem) (item : TranscriptItem)
      → must_flush max_chars max_seconds current item ≡ false
      → IsSegment (current ++ item ∷ [])
  kept-IsSegment [] item h = record { before = []; last = item; items = refl; limits = inl refl }
  kept-IsSegment (c ∷ cs) item h = record {
    before = c ∷ cs;
    last = item;
    items = refl;
    limits = inr (within_lem (c ∷ cs) item (ground arith));
  }

  single-IsSegment : (item : TranscriptItem) → IsSegment (item ∷ [])
  single-IsSegment item = record { before = []; last = item; items = refl; limits = inl refl }

  -- What has been collected before an item is a segment, if it is anything.
  abbrev IsCurrent : List TranscriptItem → Type 0
  IsCurrent current = is_empty current ≡ false → IsSegment current

  segments-IsSegment :
      (items current : List TranscriptItem)
      → IsCurrent current
      → All IsSegment (segments max_chars max_seconds current items)
  unfolding segments
  segments-IsSegment [] [] h = tt
  segments-IsSegment [] (c ∷ cs) h = (h refl, tt)
  segments-IsSegment (item ∷ rest) current h =
      go (must_flush max_chars max_seconds current item) (ends_sentence (strip item.text)) refl
        (segments-IsSegment rest)
    where
      go :
          (flush ends : Bool)
          → must_flush max_chars max_seconds current item ≡ flush
          → ((cur : List TranscriptItem)
              → IsCurrent cur
              → All IsSegment (segments max_chars max_seconds cur rest))
          → All IsSegment (elim flush [
            | true ↦ elim ends [
              | true ↦ current ∷ (item ∷ []) ∷ segments max_chars max_seconds [] rest
              | false ↦ current ∷ segments max_chars max_seconds (item ∷ []) rest
            ]
            | false ↦ elim ends [
              | true ↦ (current ++ item ∷ []) ∷ segments max_chars max_seconds [] rest
              | false ↦ segments max_chars max_seconds (current ++ item ∷ []) rest
            ]
          ])
      go true true e ih =
          (h (ground arith), (single-IsSegment item, ih [] (λ k. absurd (ground arith))))
      go true false e ih = (h (ground arith), ih (item ∷ []) (λ _. single-IsSegment item))
      go false true e ih = (kept-IsSegment current item e, ih [] (λ k. absurd (ground arith)))
      go false false e ih = ih (current ++ item ∷ []) (λ _. kept-IsSegment current item e)

  -- The segments of a transcript, put together, are its items in their order, and each is one item or
  -- stays within the limits on characters and time.
  pub segments_lem :
      (items : List TranscriptItem)
      → (concat (segments max_chars max_seconds [] items) ≡ items)
        × All IsSegment (segments max_chars max_seconds [] items)
  segments_lem items =
      (concat-segments items [], segments-IsSegment items [] (λ k. absurd (ground arith)))
