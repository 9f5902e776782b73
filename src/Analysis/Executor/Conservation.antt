-- ===== src/Analysis/Executor/Conservation.antt =====
-- What the steps of the parallel loop keep.
use hate_speech_rag_service.Common.{
  ℕ, zero, suc, ◌+◌, ◌≤◌, Bool, false, some, List, [], ◌∷◌, ◌++◌, ◌≡◌, ◌⊎◌, inl, inr, refl,
  if◌then◌else◌, arith, length, count, length-append, Option-cases, ap,
}
use hate_speech_rag_service.Db.Results.{is_succeeded, is_failed, ResultStatus}
use hate_speech_rag_service.Analysis.Models.{AnalysisItem, AnalysisOutcome}
use hate_speech_rag_service.Analysis.Executor.{
  Progress, start, count_outcome, submit_from, submit_one, submit_many, take_at,
}

pub count-append :
    (p : AnalysisItem → Bool) (xs ys : List AnalysisItem)
    → count p (xs ++ ys) ≡ count p xs + count p ys
count-append p [] ys = omega arith
count-append p (x ∷ xs) ys = ground (arith, count-append p xs ys)

pub take_at-count :
    (p : AnalysisItem → Bool) (i : ℕ) (xs ys : List AnalysisItem) (x : AnalysisItem)
    → take_at i xs ≡ some (x, ys)
    → (count p xs ≡ count p (x ∷ ys)) × (length xs ≡ suc (length ys))
take_at-count p i [] ys x h = ground arith
take_at-count p zero (z ∷ zs) ys x h = ground arith
take_at-count p (suc i) (z ∷ zs) ys x h = elim (Option-cases (take_at i zs)) [
  | inl e ↦ ground arith
  | inr ((w, ws), e) ↦ ground (arith, take_at-count p i zs ws w e)
]

module _ (n : ℕ) (items : List AnalysisItem) where
  -- No item is recorded more often than it is given, no more than n are in flight, and the
  -- counters are those of the recorded outcomes.
  pub record IsSafe (s : Progress) : Type 0 where
    pub not_twice : (p : AnalysisItem → Bool) → count p s.recorded ≤ count p items
    pub bounded : length s.in_flight ≤ n
    pub completed_lem : s.completed ≡ length s.recorded
    pub split : s.succeeded + s.failed ≡ s.completed

  -- The state between the rounds, with `held` out of flight and `free` places to fill: no item is
  -- lost, and unless a shutdown is requested no further place stays free while an item remains.
  pub record IsSound (held : List AnalysisItem) (free : ℕ) (s : Progress) : Type 0 where
    pub kept :
        (p : AnalysisItem → Bool)
        → count p s.recorded + count p s.in_flight + count p s.remaining + count p held
          ≡ count p items
    pub bounded : length s.in_flight + free ≤ n
    pub completed_lem : s.completed ≡ length s.recorded
    pub split : s.succeeded + s.failed ≡ s.completed
    pub no_idle :
        s.shutdown_requested ≡ false → (length s.remaining ≡ 0) ⊎ (length s.in_flight + free ≡ n)

  pub IsSound-IsSafe :
      (held : List AnalysisItem) (free : ℕ) (s : Progress) → IsSound held free s → IsSafe s
  IsSound-IsSafe held free s h = record {
    not_twice = λ p. omega (arith, h.kept p);
    bounded = omega (arith, h.bounded);
    completed_lem = h.completed_lem;
    split = h.split;
  }

  status_count :
      (r : ResultStatus) → (if is_succeeded r then 1 else 0) + (if is_failed r then 1 else 0) ≡ 1
  status_count ResultStatus.succeeded = refl
  status_count ResultStatus.failed = refl

  pub count_outcome-IsSound :
      (item : AnalysisItem) (o : AnalysisOutcome) (s : Progress)
      → IsSound (item ∷ []) 1 s
      → IsSound [] 1 (count_outcome item o s)
  count_outcome-IsSound item o s h = record {
    kept = λ p. omega (arith, h.kept p, count-append p s.recorded (item ∷ []));
    bounded = h.bounded;
    completed_lem = omega (arith, h.completed_lem, length-append s.recorded (item ∷ []));
    split = omega (arith, h.split, status_count o.status);
    no_idle = h.no_idle;
  }

  pub submit_from-IsSound :
      (free : ℕ) (xs : List AnalysisItem) (s : Progress)
      → s.remaining ≡ xs
      → IsSound [] (suc free) s
      → IsSound [] free (submit_from xs s)
  submit_from-IsSound free [] s e h = record {
    kept = h.kept;
    bounded = omega (arith, h.bounded);
    completed_lem = h.completed_lem;
    split = h.split;
    no_idle = λ _. inl (ap length e);
  }
  submit_from-IsSound free (x ∷ xs) s e h =
      let grown = length-append s.in_flight (x ∷ []) in
      record {
        kept = λ p. grind (arith, h.kept p, ap (count p) e, count-append p s.in_flight (x ∷ []));
        bounded = omega (arith, h.bounded, grown);
        completed_lem = h.completed_lem;
        split = h.split;
        no_idle = λ k. elim (h.no_idle k) [
          | inl r ↦ ground (arith, ap length e)
          | inr f ↦ inr (omega (arith, grown))
        ];
      }

  pub submit_one-IsSound :
      (free : ℕ) (s : Progress) → IsSound [] (suc free) s → IsSound [] free (submit_one s)
  unfolding submit_one
  submit_one-IsSound free s h = submit_from-IsSound free s.remaining s refl h

  pub submit_many-IsSound : (k : ℕ) (s : Progress) → IsSound [] k s → IsSound [] 0 (submit_many k s)
  unfolding submit_many
  submit_many-IsSound zero s h = h
  submit_many-IsSound (suc k) s h = submit_many-IsSound k (submit_one s) (submit_one-IsSound k s h)

  pub start-IsSound : IsSound [] n (start items)
  start-IsSound = record {
    kept = λ p. omega arith;
    bounded = omega arith;
    completed_lem = refl;
    split = refl;
    no_idle = λ _. inr (omega arith);
  }
