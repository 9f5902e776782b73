-- ===== src/Analysis/Executor/Rounds.antt =====
-- What a round of the parallel loop, and the loop, keep.
use hate_speech_rag_service.Common.{
  ℕ, ◌+◌, Bool, true, false, none, some, List, [], ◌∷◌, ◌≡◌, ◌≢◌, refl, if◌then◌else◌, arith,
  Option, not,
}
use hate_speech_rag_service.Analysis.Models.{AnalysisItem}
use hate_speech_rag_service.Analysis.Executor.{
  Classified, outcome, raises, Completion, Round, Progress, finished, shutdown, aborted,
  count_outcome, submit_one, take_at, refill, request_shutdown, is_overdue, note_stop, Step, go_on,
  leave, settle, settle_all, RoundResult, ends, continues, round_result, play_round,
}
use hate_speech_rag_service.Analysis.Executor.Conservation.{
  take_at-count, IsSafe, IsSound, IsSound-IsSafe, count_outcome-IsSound, submit_one-IsSound,
}

module _ (n : ℕ) (items : List AnalysisItem) where
  -- What a step leads to: a sound state, or one that is safe at least.
  abbrev StepHolds : ℕ → Step → Type 0
  StepHolds free (go_on s) = IsSound n items [] free s
  StepHolds free (leave s) = IsSafe n items s

  request_shutdown-IsSound :
      (stop : Bool) (deadline : ℕ) (s : Progress)
      → IsSound n items [] 0 s
      → IsSound n items [] 0 (request_shutdown stop deadline s)
  request_shutdown-IsSound false deadline s h = h
  request_shutdown-IsSound true deadline s h = record {
    kept = h.kept;
    bounded = h.bounded;
    completed_lem = h.completed_lem;
    split = h.split;
    no_idle = λ k. ground arith;
  }

  note_stop-IsSound :
      (stop : Bool) (s : Progress)
      → IsSound n items [] 1 s
      → IsSound n items [] 1 (note_stop stop s)
  note_stop-IsSound stop s h = record {
    kept = h.kept;
    bounded = h.bounded;
    completed_lem = h.completed_lem;
    split = h.split;
    no_idle = λ k. h.no_idle (ground arith);
  }

  -- The place that a settled future leaves stays free once a shutdown is requested.
  refill-IsSound : (s : Progress) → IsSound n items [] 1 s → IsSound n items [] 0 (refill s)
  unfolding refill
  refill-IsSound s h = go s.shutdown_requested refl
    where
      go :
          (b : Bool)
          → s.shutdown_requested ≡ b
          → IsSound n items [] 0 (if b then s else submit_one s)
      go true e = record {
        kept = h.kept;
        bounded = omega (arith, h.bounded);
        completed_lem = h.completed_lem;
        split = h.split;
        no_idle = λ k. ground arith;
      }
      go false e = submit_one-IsSound n items 0 s h

  settled_lem :
      (stored logged stop : Bool) (s counted : Progress)
      → IsSafe n items s
      → IsSound n items [] 1 counted
      → StepHolds 0 (
          if not stored
          then leave s
          else if not logged
          then leave counted
          else go_on (refill (note_stop stop counted)))
  settled_lem false logged stop s counted h k = h
  settled_lem true false stop s counted h k = IsSound-IsSafe n items [] 1 counted k
  settled_lem true true stop s counted h k =
      refill-IsSound (note_stop stop counted) (note_stop-IsSound stop counted k)

  settle-StepHolds :
      (r : Classified) (item : AnalysisItem) (c : Completion) (s : Progress)
      → IsSound n items (item ∷ []) 1 s
      → StepHolds 0 (settle r item c s)
  unfolding settle
  settle-StepHolds raises item c s h = IsSound-IsSafe n items (item ∷ []) 1 s h
  settle-StepHolds (outcome o) item c s h =
      settled_lem c.stored c.logged c.stop s (count_outcome item o s)
        (IsSound-IsSafe n items (item ∷ []) 1 s h) (count_outcome-IsSound n items item o s h)

  take_out-IsSound :
      (i : ℕ) (item : AnalysisItem) (others : List AnalysisItem) (s : Progress)
      → take_at i s.in_flight ≡ some (item, others)
      → IsSound n items [] 0 s
      → IsSound n items (item ∷ []) 1 (record s { in_flight = others })
  take_out-IsSound i item others s e h = record {
    kept = λ p. grind (arith, h.kept p, (take_at-count p i s.in_flight others item e).0);
    bounded = omega (arith, h.bounded, (take_at-count (λ _. true) i s.in_flight others item e).1);
    completed_lem = h.completed_lem;
    split = h.split;
    no_idle =
        λ k. ground (arith, h.no_idle k, (take_at-count (λ _. true) i s.in_flight others item e).1);
  }

  module _ (classify : AnalysisItem → Classified) where
    settle_all-StepHolds :
        (cs : List Completion) (s : Progress)
        → IsSound n items [] 0 s
        → StepHolds 0 (settle_all classify cs s)
    unfolding settle_all
    settle_all-StepHolds [] s h = h
    settle_all-StepHolds (c ∷ cs) s h =
        go (take_at c.position s.in_flight) refl (settle_all-StepHolds cs)
      where
        on :
            (r : Step)
            → StepHolds 0 r
            → ((after : Progress)
                → IsSound n items [] 0 after
                → StepHolds 0 (settle_all classify cs after))
            → StepHolds 0
                (elim r [ leave after ↦ leave after | go_on after ↦ settle_all classify cs after ])
        on (leave after) k ih = k
        on (go_on after) k ih = ih after k

        go :
            (t : Option (AnalysisItem × List AnalysisItem))
            → take_at c.position s.in_flight ≡ t
            → ((after : Progress)
                → IsSound n items [] 0 after
                → StepHolds 0 (settle_all classify cs after))
            → StepHolds 0 (elim t [
              | none ↦ settle_all classify cs s
              | some (item, others) ↦
                  elim (settle (classify item) item c (record s { in_flight = others })) [
                    | leave after ↦ leave after
                    | go_on after ↦ settle_all classify cs after
                  ]
            ])
        go none e ih = ih s h
        go (some (item, others)) e ih =
            let taken = record s { in_flight = others } in
            on (settle (classify item) item c taken)
              (settle-StepHolds (classify item) item c taken
                (take_out-IsSound c.position item others s e h))
              ih

  -- What a round leads to.
  abbrev pub RoundHolds : RoundResult → Type 0
  RoundHolds (continues s) = IsSound n items [] 0 s
  RoundHolds (ends e s) = IsSafe n items s × (e ≢ finished)

  pub round_result-RoundHolds : (r : Step) → StepHolds 0 r → RoundHolds (round_result r)
  round_result-RoundHolds (go_on s) h = h
  round_result-RoundHolds (leave s) h = (h, ground arith)

  module _ (classify : AnalysisItem → Classified) (grace : ℕ) where
    pub play_round-RoundHolds :
        (r : Round) (s : Progress)
        → IsSound n items [] 0 s
        → RoundHolds (play_round classify grace r s)
    unfolding play_round
    play_round-RoundHolds r s h = go (is_overdue s1.shutdown_deadline r.check_time) r.done r.beaten
      where
        s1 : Progress
        s1 = request_shutdown r.stop_first (r.stop_time + grace) s

        sound : IsSound n items [] 0 s1
        sound = request_shutdown-IsSound r.stop_first (r.stop_time + grace) s h

        go :
            (overdue : Bool) (done : List Completion) (beaten : Bool)
            → RoundHolds (
                if overdue then ends shutdown s1 else elim done [
                  | [] ↦ if beaten then continues s1 else ends aborted s1
                  | c ∷ cs ↦ round_result (
                      settle_all classify
                        (c ∷ cs)
                        (request_shutdown r.stop_second (r.stop_second_time + grace) s1))
                ])
        go true done beaten = (IsSound-IsSafe n items [] 0 s1 sound, ground arith)
        go false [] true = sound
        go false [] false = (IsSound-IsSafe n items [] 0 s1 sound, ground arith)
        go false (c ∷ cs) beaten = round_result-RoundHolds _ (
            settle_all-StepHolds classify (c ∷ cs) _
              (request_shutdown-IsSound r.stop_second (r.stop_second_time + grace) s1 sound))
