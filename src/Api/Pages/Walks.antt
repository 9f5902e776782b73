-- ===== src/Api/Pages/Walks.antt =====
-- A client that follows `next_cursor` through the pages of a list.
use hate_speech_rag_service.Common.{
  ℕ, zero, suc, ◌+◌, ◌≤◌, ◌<◌, Bool, true, false, none, some, List, [], ◌∷◌, ◌++◌, ◌≡◌, refl, ap,
  ◌∙◌, sym, arith, take, length, ltb, if◌then◌else◌,
}
use hate_speech_rag_service.Db.Results.{ReportSnapshot}
use hate_speech_rag_service.Db.Database.{Database}
use hate_speech_rag_service.Api.Pages.{
  Page, drop, slice, page, page_of, ResultFilter, Sort, comment_rows, get_comments,
}

suc_plus : (n m : ℕ) → suc n + m ≡ suc (n + m)
suc_plus n m = omega arith

module _ {ℓ} {A : Type ℓ} where
  -- The items that a client has read after at most `fuel` pages, from a page on.
  unfoldable pub follow : ℕ → (ℕ → Page A) → ℕ → List A
  follow zero fetch cursor = []
  follow (suc fuel) fetch cursor =
      let p = fetch cursor in
      p.items ++ elim p.next_cursor [ none ↦ [] | some next ↦ follow fuel fetch next ]

  take-drop : (n : ℕ) (xs : List A) → take n xs ++ drop n xs ≡ xs
  take-drop zero xs = refl
  take-drop (suc n) [] = refl
  take-drop (suc n) (x ∷ xs) = ap (λ ys. x ∷ ys) (take-drop n xs)

  drop-nil : (n : ℕ) → drop {A = A} n [] ≡ []
  drop-nil zero = refl
  drop-nil (suc n) = refl

  drop-drop : (n m : ℕ) (xs : List A) → drop m (drop n xs) ≡ drop (n + m) xs
  drop-drop zero m xs = ap (λ k. drop k xs) (omega arith)
  drop-drop (suc n) m [] = drop-nil m ∙ sym (drop-nil (suc n + m))
  drop-drop (suc n) m (x ∷ xs) = drop-drop n m xs ∙ sym (ap (λ k. drop k (x ∷ xs)) (suc_plus n m))

  drop_all : (n : ℕ) (xs : List A) → length xs ≤ n → drop n xs ≡ []
  drop_all zero [] h = refl
  drop_all zero (x ∷ xs) h = absurd (omega (arith, h))
  drop_all (suc n) [] h = refl
  drop_all (suc n) (x ∷ xs) h = drop_all n xs (omega (arith, h))

  follow-pages :
      (fuel cursor limit : ℕ) (rows : List A)
      → 1 ≤ limit
      → length rows < cursor + fuel
      → follow fuel (λ c. page_of c limit rows) cursor ≡ drop cursor rows
  unfolding follow page_of page
  follow-pages zero cursor limit rows pos enough =
      sym (drop_all cursor rows (omega (arith, enough)))
  follow-pages (suc fuel) cursor limit rows pos enough =
      go (ltb (cursor + limit) (length rows)) refl
        (follow-pages fuel (cursor + limit) limit rows pos (omega (arith, enough, pos)))
    where
      whole : slice cursor limit rows ++ drop (cursor + limit) rows ≡ drop cursor rows
      whole =
          ap (λ ys. slice cursor limit rows ++ ys) (sym (drop-drop cursor limit rows))
          ∙ take-drop limit (drop cursor rows)

      go :
          (more : Bool)
          → ltb (cursor + limit) (length rows) ≡ more
          → follow fuel (λ c. page_of c limit rows) (cursor + limit) ≡ drop (cursor + limit) rows
          → slice cursor limit rows ++ elim (if more then some (cursor + limit) else none) [
            | none ↦ []
            | some next ↦ follow fuel (λ c. page_of c limit rows) next
          ]
            ≡ drop cursor rows
      go true e ih = ap (λ ys. slice cursor limit rows ++ ys) ih ∙ whole
      go false e ih =
          ap (λ ys. slice cursor limit rows ++ ys)
            (sym (drop_all (cursor + limit) rows (ground arith)))
          ∙ whole

  -- Following the cursors through the pages of a list from its start gives the whole list.
  follow-all :
      (limit : ℕ) (rows : List A)
      → 1 ≤ limit
      → follow (suc (length rows)) (λ c. page_of c limit rows) 0 ≡ rows
  follow-all limit rows pos = follow-pages (suc (length rows)) 0 limit rows pos (omega arith)

-- With a positive limit, a client that follows the cursors of `get_comments` from the start reads,
-- in order and without a gap or a repetition, exactly the rows that the filter and the order give.
pub follow-get_comments :
    (report : ReportSnapshot) (limit : ℕ) (f : ResultFilter) (sort : Sort) (db : Database)
    → 1 ≤ limit
    → follow
        (suc (length (comment_rows report f sort db)))
        (λ cursor. get_comments report limit cursor f sort db)
        0
      ≡ comment_rows report f sort db
unfolding get_comments
follow-get_comments report limit f sort db pos =
    follow-all limit (comment_rows report f sort db) pos
