-- ===== src/Analysis/Validator/Rules.antt =====
-- The rules of a valid answer, stated apart from the code, and that the validator decides them.
use hate_speech_rag_service.Common.{
  ℕ, ◌≤◌, String, Bool, true, false, not, ◌&&◌, Option, none, some, List, [], ◌∷◌, ◌≡◌, ◌≢◌, ◌↔◌,
  ◌⊎◌, inl, inr, refl, string_Eq, any, All, filter, length, is_none, ltb, arith, eq_iff, Bool-cases,
  ap, All-map,
}
use hate_speech_rag_service.Common.Json.{Json, Fields, bool, str, get_field}
use hate_speech_rag_service.Analysis.Validator.{
  required_output_fields, allowed_categories, ValidationError, contains, is_bool, is_true, is_false,
  string_list, texts, is_missing, is_list_or_missing, only_unclassified, is_empty, has_hangul,
  is_korean, is_untargeted, checks, reported, has_none, validate_fields,
}

-- What an answer says: whether it is hate speech, with which categories.
pub record IsAcceptable (p : Fields) : Type 0 where
  pub complete : All (λ name. is_none (get_field name p) ≡ false) required_output_fields
  pub hate : Bool
  pub hate_read : get_field "is_hate_speech" p ≡ some (bool hate)
  pub categories : List String
  pub categories_read : string_list (get_field "categories" p) ≡ some categories
  pub known : All (λ c. contains allowed_categories c ≡ true) categories
  pub calm : hate ≡ false → categories ≡ "unclassified" ∷ []
  pub named : hate ≡ true → categories ≢ []
  pub classified : hate ≡ true → contains categories "unclassified" ≡ false
  pub alone : hate ≡ true → contains categories "other" ≡ true → length categories ≤ 1
  pub untargeted :
      hate ≡ true
      → contains categories "no_target" ≡ true
      → All (λ c. (c ≡ "profanity") ⊎ (c ≡ "no_target")) categories
  pub no_group :
      hate ≡ true
      → contains categories "no_target" ≡ true
      → is_missing (get_field "target_group" p) ≡ true
  pub cases_listed : is_list_or_missing (get_field "similar_cases_used" p) ≡ true
  pub docs_listed : is_list_or_missing (get_field "definition_docs_used" p) ≡ true
  pub reasoning : String
  pub reasoning_read : get_field "reasoning" p ≡ some (str reasoning)
  pub korean : has_hangul reasoning ≡ true

-- No check fires.
abbrev AllFalse : List (Bool × ValidationError) → Type 0
AllFalse [] = Unit
AllFalse ((b, e) ∷ rest) = (b ≡ false) × AllFalse rest

none_reported : (l : List (Bool × ValidationError)) → (has_none (reported l) ≡ true) ↔ AllFalse l
none_reported [] = (λ _. tt, λ _. refl)
none_reported ((true, e) ∷ rest) = (λ h. cc, λ h. cc (h.0))
none_reported ((false, e) ∷ rest) =
    (λ h. (refl, (none_reported rest).0 h), λ h. (none_reported rest).1 h.1)

filter_empty :
    (p : String → Bool) (xs : List String)
    → (not (is_empty (filter p xs)) ≡ false) ↔ All (λ x. p x ≡ false) xs
filter_empty p [] = (λ _. tt, λ _. refl)
filter_empty p (x ∷ xs) = elim (Bool-cases (p x)) [
  | inl e ↦ rw e (λ h. cc, λ h. cc (h.0))
  | inr e ↦ rw e (λ h. (refl, (filter_empty p xs).0 h), λ h. (filter_empty p xs).1 h.1)
]

any_empty : (p : String → Bool) (xs : List String) → (any p xs ≡ false) ↔ All (λ x. p x ≡ false) xs
any_empty p [] = (λ _. tt, λ _. refl)
any_empty p (x ∷ xs) = elim (Bool-cases (p x)) [
  | inl e ↦ rw e (λ h. cc, λ h. cc (h.0))
  | inr e ↦ rw e (λ h. (refl, (any_empty p xs).0 h), λ h. (any_empty p xs).1 h.1)
]

All-iff :
    (P Q : String → Type 0) (xs : List String) → ((x : String) → P x → Q x) → All P xs → All Q xs
All-iff P Q xs f h = All-map P Q xs f h

bool_read : (j : Option Json) → not (is_bool j) ≡ false → (b : Bool) × (j ≡ some (bool b))
bool_read (some (bool b)) h = (b, refl)
bool_read none h = cc
bool_read (some _) h = cc

strings_read :
    (o : Option (List String)) → is_none o ≡ false → (names : List String) × (o ≡ some names)
strings_read (some names) h = (names, refl)
strings_read none h = cc

korean_read :
    (j : Option Json)
    → not (is_korean j) ≡ false
    → (text : String) × (j ≡ some (str text)) × (has_hangul text ≡ true)
korean_read (some (str text)) h = (text, refl, ground arith)
korean_read none h = cc
korean_read (some _) h = cc

only_unclassified_iff :
    (names : List String) → (only_unclassified names ≡ true) ↔ (names ≡ "unclassified" ∷ [])
only_unclassified_iff [] = (λ h. cc, λ h. cc)
only_unclassified_iff (name ∷ []) = (
  λ h. ap (λ n. n ∷ []) ((eq_iff name "unclassified").0 h),
  λ h. (eq_iff name "unclassified").1 (cc),
)
only_unclassified_iff (a ∷ b ∷ rest) = (λ h. cc, λ h. cc)

untargeted_iff :
    (c : String) → (not (is_untargeted c) ≡ false) ↔ ((c ≡ "profanity") ⊎ (c ≡ "no_target"))
untargeted_iff c = (
  λ h. ground (arith, eq_iff c "profanity", eq_iff c "no_target"),
  λ h. ground (arith, eq_iff c "profanity", eq_iff c "no_target"),
)

not-false : {b : Bool} → not b ≡ false → b ≡ true
not-false h = ground arith

hateful :
    (j : Option Json) (b x : Bool)
    → j ≡ some (bool b)
    → b ≡ true
    → (is_true j && x) ≡ false
    → x ≡ false
hateful j b x read e h =
    let h' : (is_true (some (bool b)) && x) ≡ false = rw read at h in ground arith

calmly :
    (j : Option Json) (b x : Bool)
    → j ≡ some (bool b)
    → b ≡ false
    → (is_false j && not x) ≡ false
    → x ≡ true
calmly j b x read e h =
    let h' : (is_false (some (bool b)) && not x) ≡ false = rw read at h in ground arith

when_hate : (b x : Bool) → (b ≡ true → x ≡ false) → (is_true (some (bool b)) && x) ≡ false
when_hate true x h = h refl
when_hate false x h = refl

when_calm : (b x : Bool) → (b ≡ false → x ≡ true) → (is_false (some (bool b)) && not x) ≡ false
when_calm true x h = refl
when_calm false x h = ground (arith, h refl)

both : (x y : Bool) → (x ≡ true → y ≡ false) → (x && y) ≡ false
both true y h = h refl
both false y h = refl

true-not : {b : Bool} → b ≡ true → not b ≡ false
true-not h = ground arith

not_long : (n : ℕ) → n ≤ 1 → ltb 1 n ≡ false
not_long n h = ground arith

not_empty : (names : List String) → names ≢ [] → is_empty names ≡ false
not_empty [] h = absurd (h refl)
not_empty (_ ∷ _) h = refl

module _ (p : Fields) where
  accept :
      (b : Bool) (names : List String)
      → get_field "is_hate_speech" p ≡ some (bool b)
      → string_list (get_field "categories" p) ≡ some names
      → AllFalse (checks p)
      → IsAcceptable p
  unfolding checks
  accept b names hate listed f =
      let same : texts (string_list (get_field "categories" p)) ≡ names = ap texts listed in
      let (text, read, hangul) =
        korean_read (get_field "reasoning" p) f.1.1.1.1.1.1.1.1.1.1.1.1.0 in
      record {
        complete = (filter_empty (λ name. is_none (get_field name p)) required_output_fields).0 f.0;
        hate = b;
        hate_read = hate;
        categories = names;
        categories_read = listed;
        known =
            All-map _ (λ c. contains allowed_categories c ≡ true) names (λ c. not-false)
              ((filter_empty (λ c. not (contains allowed_categories c)) names).0
                (rw same at f.1.1.1.0));
        calm = λ e. (only_unclassified_iff names).0 (rw same at (calmly _ b _ hate e f.1.1.1.1.0));
        named = λ e empty.
            let some_name : is_empty names ≡ false =
              rw same at (hateful _ b _ hate e f.1.1.1.1.1.0) in
            ground arith;
        classified = λ e. rw same at (hateful _ b _ hate e f.1.1.1.1.1.1.0);
        alone = λ e other.
            let short : (contains names "other" && ltb 1 (length names)) ≡ false =
              rw same at (hateful _ b _ hate e f.1.1.1.1.1.1.1.0) in
            ground arith;
        untargeted = λ e none_hit.
            let free : (contains names "no_target" && any (λ c. not (is_untargeted c)) names)
                ≡ false =
              rw same at (hateful _ b _ hate e f.1.1.1.1.1.1.1.1.0) in
            All-map _ _ names (λ c. (untargeted_iff c).0)
              ((any_empty (λ c. not (is_untargeted c)) names).0 (ground arith));
        no_group = λ e none_hit.
            let absent : (contains names "no_target"
                  && not (is_missing (get_field "target_group" p)))
                ≡ false =
              rw same at (hateful _ b _ hate e f.1.1.1.1.1.1.1.1.1.0) in
            ground arith;
        cases_listed = not-false f.1.1.1.1.1.1.1.1.1.1.0;
        docs_listed = not-false f.1.1.1.1.1.1.1.1.1.1.1.0;
        reasoning = text;
        reasoning_read = read;
        korean = hangul;
      }

  reject : (a : IsAcceptable p) → AllFalse (checks p)
  unfolding checks
  reject a =
      let untargeted = λ (e : a.hate ≡ true) (t : contains a.categories "no_target" ≡ true).
        (any_empty (λ c. not (is_untargeted c)) a.categories).1 (
          All-map _ (λ c. not (is_untargeted c) ≡ false) a.categories (λ c. (untargeted_iff c).1)
            (a.untargeted e t)) in
      let alone = λ (e : a.hate ≡ true).
        both (contains a.categories "other") (ltb 1 (length a.categories))
          (λ o. not_long _ (a.alone e o)) in
      let no_group = λ (e : a.hate ≡ true).
        both (contains a.categories "no_target") (not (is_missing (get_field "target_group" p)))
          (λ t. true-not (a.no_group e t)) in
      (
        (filter_empty (λ name. is_none (get_field name p)) required_output_fields).1 a.complete,
        rw (a.hate_read, a.categories_read, a.reasoning_read)
            (
              refl,
              (
                refl,
                (
                  (filter_empty (λ c. not (contains allowed_categories c)) a.categories).1 (
                      All-map _ (λ c. not (contains allowed_categories c) ≡ false) a.categories
                        (λ c e. ground arith) a.known),
                  (
                    when_calm a.hate _ (λ e. (only_unclassified_iff a.categories).1 (a.calm e)),
                    (
                      when_hate a.hate _ (λ e. not_empty a.categories (a.named e)),
                      (
                        when_hate a.hate _ a.classified,
                        (
                          when_hate a.hate _ alone,
                          (
                            when_hate a.hate _ (λ e. both _ _ (λ t. untargeted e t)),
                            (
                              when_hate a.hate _ no_group,
                              (
                                true-not a.cases_listed,
                                (true-not a.docs_listed, (true-not a.korean, tt)),
                              ),
                            ),
                          ),
                        ),
                      ),
                    ),
                  ),
                ),
              ),
            ),
      )

-- An answer is valid exactly if it meets the rules: it has all fields, a Boolean verdict and a list of
-- known categories; without hate the one category is `unclassified`; with hate there is a category,
-- none of them is `unclassified`, `other` stands alone, and `no_target` goes only with `profanity` and
-- without a target group; the two reference fields are lists and the reasoning has Korean letters.
pub validate_fields_lem : (p : Fields) → ((validate_fields p).valid ≡ true) ↔ IsAcceptable p
unfolding validate_fields
validate_fields_lem p = (
  λ h.
      let f = (none_reported (checks p)).0 h in
      let (b, hate) = bool_read (get_field "is_hate_speech" p) f.1.0 in
      let (names, listed) = strings_read (string_list (get_field "categories" p)) f.1.1.0 in
      accept p b names hate listed f,
  λ a. (none_reported (checks p)).1 (reject p a),
)
