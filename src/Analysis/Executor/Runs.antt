-- ===== src/Analysis/Executor/Runs.antt =====
-- What every run of the parallel loop keeps, and what a finished run has done.
use hate_speech_rag_service.Common.{
  ℕ, suc, ◌+◌, ◌≤◌, Bool, true, false, List, [], ◌∷◌, ◌≡◌, refl, if◌then◌else◌, arith, length,
  count, ap,
}
use hate_speech_rag_service.Analysis.Models.{AnalysisItem}
use hate_speech_rag_service.Analysis.Executor.{
  Classified, Round, Progress, End, finished, waiting, start, submit_many, RoundResult, ends,
  continues, no_flight, last_end, play_round, play, run_parallel,
}
use hate_speech_rag_service.Analysis.Executor.Conservation.{
  IsSafe, IsSound, IsSound-IsSafe, submit_many-IsSound, start-IsSound,
}
use hate_speech_rag_service.Analysis.Executor.Rounds.{RoundHolds, play_round-RoundHolds}

module _ (n : ℕ) (items : List AnalysisItem) where
  pub record IsDone (s : Progress) : Type 0 where
    pub recorded_all : (p : AnalysisItem → Bool) → count p s.recorded ≡ count p items
    pub counted_all : s.completed ≡ length items
    pub split_all : s.succeeded + s.failed ≡ length items

  -- What the loop leads to: a safe state, and after a finished run every item is recorded.
  abbrev pub LoopHolds : End × Progress → Type 0
  LoopHolds (e, s) = IsSafe n items s × (e ≡ finished → IsDone s)

  count-true : (xs : List AnalysisItem) → count (λ _. true) xs ≡ length xs
  count-true [] = refl
  count-true (x ∷ xs) = ap suc (count-true xs)

  not_requested : (b : Bool) → last_end b ≡ finished → b ≡ false
  not_requested b e = ground arith

  count_none : (p : AnalysisItem → Bool) (xs : List AnalysisItem) → length xs ≡ 0 → count p xs ≡ 0
  count_none p [] h = refl
  count_none p (x ∷ xs) h = omega (arith, h)

  none_remains :
      1 ≤ n
      → (s : Progress) → IsSound n items [] 0 s
      → length s.in_flight ≡ 0
      → s.shutdown_requested ≡ false
      → length s.remaining ≡ 0
  none_remains pos s h empty e = ground (arith, h.no_idle e)

  all_recorded :
      (s : Progress)
      → IsSound n items [] 0 s
      → length s.in_flight ≡ 0
      → length s.remaining ≡ 0
      → (p : AnalysisItem → Bool) → count p s.recorded ≡ count p items
  all_recorded s h empty none_left p =
      omega (arith, h.kept p, count_none p s.in_flight empty, count_none p s.remaining none_left)

  all_recorded-IsDone :
      (s : Progress)
      → IsSound n items [] 0 s
      → ((p : AnalysisItem → Bool) → count p s.recorded ≡ count p items)
      → IsDone s
  all_recorded-IsDone s h k = record {
    recorded_all = k;
    counted_all =
        omega (arith, h.completed_lem, k (λ _. true), count-true s.recorded, count-true items);
    split_all =
        omega
          (arith, h.completed_lem, h.split, k (λ _. true), count-true s.recorded, count-true items);
  }

  no_flight_lem : (xs : List AnalysisItem) → no_flight xs ≡ true → length xs ≡ 0
  no_flight_lem [] h = refl
  no_flight_lem (x ∷ xs) h = cc

  waiting-LoopHolds : (s : Progress) → IsSound n items [] 0 s → LoopHolds (waiting, s)
  waiting-LoopHolds s h = (IsSound-IsSafe n items [] 0 s h, λ e. ground arith)

  ended-LoopHolds :
      1 ≤ n
      → (s : Progress) → IsSound n items [] 0 s
      → no_flight s.in_flight ≡ true
      → LoopHolds (last_end s.shutdown_requested, s)
  ended-LoopHolds pos s h empty = (
    IsSound-IsSafe n items [] 0 s h,
    λ e. all_recorded-IsDone s h (
        all_recorded s h (no_flight_lem s.in_flight empty) (
          none_remains pos s h (no_flight_lem s.in_flight empty)
            (not_requested s.shutdown_requested e))),
  )

  module _ (classify : AnalysisItem → Classified) (grace : ℕ) (pos : 1 ≤ n) where
    play-LoopHolds :
        (rounds : List Round) (s : Progress)
        → IsSound n items [] 0 s
        → LoopHolds (play classify grace rounds s)
    unfolding play
    play-LoopHolds [] s h = go (no_flight s.in_flight) refl
      where
        go :
            (b : Bool)
            → no_flight s.in_flight ≡ b
            → LoopHolds (if b then last_end s.shutdown_requested else waiting, s)
        go true e = ended-LoopHolds pos s h e
        go false e = waiting-LoopHolds s h
    play-LoopHolds (r ∷ rs) s h =
        go (no_flight s.in_flight) refl (play_round classify grace r s)
          (play_round-RoundHolds n items classify grace r s h) (play-LoopHolds rs)
      where
        go :
            (b : Bool)
            → no_flight s.in_flight ≡ b
            → (result : RoundResult) → RoundHolds n items result
            → ((after : Progress)
                → IsSound n items [] 0 after
                → LoopHolds (play classify grace rs after))
            → LoopHolds (elim b [
              | true ↦ (last_end s.shutdown_requested, s)
              | false ↦ elim result [
                | ends e after ↦ (e, after)
                | continues after ↦ play classify grace rs after
              ]
            ])
        go true e result k ih = ended-LoopHolds pos s h e
        go false e (ends x after) k ih = (k.0, λ y. absurd (k.1 y))
        go false e (continues after) k ih = ih after k

run_parallel-LoopHolds :
    (classify : AnalysisItem → Classified) (grace item_concurrency : ℕ) (stop : Bool)
    (items : List AnalysisItem) (rounds : List Round)
    → 1 ≤ item_concurrency
    → LoopHolds item_concurrency items
        (run_parallel classify grace item_concurrency stop items rounds)
unfolding run_parallel
run_parallel-LoopHolds classify grace n true items rounds pos =
    (IsSound-IsSafe n items [] n (start items) (start-IsSound n items), λ e. ground arith)
run_parallel-LoopHolds classify grace n false items rounds pos =
    play-LoopHolds n items classify grace pos rounds (submit_many n (start items))
      (submit_many-IsSound n items n (start items) (start-IsSound n items))

-- With a positive concurrency, a run that finishes has recorded every item exactly as often as it
-- is given, and its counters add up to the number of the items.
pub run_parallel_finished :
    (classify : AnalysisItem → Classified) (grace item_concurrency : ℕ) (stop : Bool)
    (items : List AnalysisItem) (rounds : List Round)
    → 1 ≤ item_concurrency
    → (run_parallel classify grace item_concurrency stop items rounds).0 ≡ finished
    → IsDone item_concurrency items
        (run_parallel classify grace item_concurrency stop items rounds).1
run_parallel_finished classify grace n stop items rounds pos e =
    (run_parallel-LoopHolds classify grace n stop items rounds pos).1 e
