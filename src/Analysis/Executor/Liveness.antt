-- ===== src/Analysis/Executor/Liveness.antt =====
-- That a run ends which nothing disturbs.
use hate_speech_rag_service.Common.{
  ℕ, ◌+◌, true, false, none, if◌then◌else◌, List, [], ◌∷◌, ◌++◌, map, ◌≡◌,
}
use hate_speech_rag_service.Db.Results.{is_succeeded, is_failed}
use hate_speech_rag_service.Analysis.Models.{AnalysisItem, AnalysisOutcome}
use hate_speech_rag_service.Analysis.Executor.{
  Classified, outcome, Round, Progress, End, RoundResult, ends, continues, play, submit_one,
}

-- A round without a stop in which the future that was submitted first is done.
abbrev pub quiet_round : ℕ → Round
quiet_round time = record {
  stop_first = false;
  stop_time = time;
  check_time = time;
  done = record { position = 0; stored = true; logged = true; stop = false } ∷ [];
  beaten = true;
  stop_second = false;
  stop_second_time = time;
}

-- A state without a shutdown.
abbrev live :
    (remaining in_flight recorded : List AnalysisItem) (completed succeeded failed : ℕ) → Progress
live remaining in_flight recorded completed succeeded failed = record {
  remaining = remaining;
  in_flight = in_flight;
  recorded = recorded;
  completed = completed;
  succeeded = succeeded;
  failed = failed;
  shutdown_requested = false;
  shutdown_deadline = none;
}

module _ (classify : AnalysisItem → Classified) (grace : ℕ)
    (classifies : (item : AnalysisItem) → (o : AnalysisOutcome) × (classify item ≡ outcome o)) where
  after_round :
      AnalysisItem → AnalysisOutcome → (rem xs rec : List AnalysisItem) (c s f : ℕ) → Progress
  after_round x o rem xs rec c s f = submit_one (
      live rem xs (rec ++ x ∷ []) (c + 1) (s + (if is_succeeded o.status then 1 else 0))
        (f + (if is_failed o.status then 1 else 0)))

  next : RoundResult → List ℕ → End × Progress
  next r ts = elim r [
    | ends e after ↦ (e, after)
    | continues after ↦ play classify grace (map quiet_round ts) after
  ]
