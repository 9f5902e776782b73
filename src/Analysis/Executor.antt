-- ===== src/Analysis/Executor.antt =====
-- RagRuntime of app/analysis/executor.py. What happens outside is given in order: in each round of the
-- parallel loop the readings of the stop event and of the clock, and the futures that are done.
pub mod Conservation
pub mod Rounds
pub mod Runs
pub mod Liveness
use hate_speech_rag_service.Common.{
  ℕ, zero, suc, ◌+◌, Bool, true, false, not, ◌&&◌, ◌||◌, Option, none, some, List, [], ◌∷◌, ◌++◌,
  if◌then◌else◌, or_else, leb,
}
use hate_speech_rag_service.Db.Results.{is_succeeded, is_failed}
use hate_speech_rag_service.Analysis.Models.{AnalysisItem, AnalysisOutcome}

-- What `pool.classify` gives: an outcome, or an exception that is no ClassificationError.
pub data Classified : Type 0 where
  outcome : AnalysisOutcome → Classified
  raises : Classified

-- One future that `wait` reports: its place among those in flight, whether `persist` and a call of
-- `progress` after it return, and whether the stop event is set then.
pub record Completion : Type 0 where
  pub position : ℕ
  pub stored : Bool
  pub logged : Bool
  pub stop : Bool

-- One round of the parallel loop: the stop event before and after the wait, the clock at the two
-- readings before it, the futures that are done, and whether the heartbeat of an idle wait returns.
pub record Round : Type 0 where
  pub stop_first : Bool
  pub stop_time : ℕ
  pub check_time : ℕ
  pub done : List Completion
  pub beaten : Bool
  pub stop_second : Bool
  pub stop_second_time : ℕ

-- The local state of `run`; `recorded` are the items whose outcomes were persisted, in order.
pub record Progress : Type 0 where
  pub remaining : List AnalysisItem
  pub in_flight : List AnalysisItem
  pub recorded : List AnalysisItem
  pub completed : ℕ
  pub succeeded : ℕ
  pub failed : ℕ
  pub shutdown_requested : Bool
  pub shutdown_deadline : Option ℕ

-- How the loop of `run` ends; a finished one still sends its last progress message. `waiting` is a run whose rounds, as far as they are given, have not ended it.
pub data End : Type 0 where
  finished shutdown aborted waiting : End

abbrev pub start : List AnalysisItem → Progress
start items = record {
  remaining = items;
  in_flight = [];
  recorded = [];
  completed = 0;
  succeeded = 0;
  failed = 0;
  shutdown_requested = false;
  shutdown_deadline = none;
}

-- The counters after `persist` has returned.
abbrev pub count_outcome : AnalysisItem → AnalysisOutcome → Progress → Progress
count_outcome item o s = record s {
  recorded = s.recorded ++ item ∷ [];
  completed = s.completed + 1;
  succeeded = s.succeeded + (if is_succeeded o.status then 1 else 0);
  failed = s.failed + (if is_failed o.status then 1 else 0);
}

-- `_submit_one`, without the flag that it returns: false exactly if nothing remains.
abbrev pub submit_from : List AnalysisItem → Progress → Progress
submit_from [] s = s
submit_from (item ∷ rest) s = record s { remaining = rest; in_flight = s.in_flight ++ item ∷ [] }

unfoldable pub submit_one : Progress → Progress
submit_one s = submit_from s.remaining s

-- The first submissions, which stop where nothing remains.
unfoldable pub submit_many : ℕ → Progress → Progress
unfolding submit_one
submit_many zero s = s
submit_many (suc n) s = submit_many n (submit_one s)

abbrev pub take_at : ℕ → List AnalysisItem → Option (AnalysisItem × List AnalysisItem)
take_at i [] = none
take_at zero (x ∷ xs) = some (x, xs)
take_at (suc i) (x ∷ xs) = elim (take_at i xs) [ none ↦ none | some (y, ys) ↦ some (y, x ∷ ys) ]

abbrev pub request_shutdown : Bool → ℕ → Progress → Progress
request_shutdown stop deadline s =
    if stop
    then record s {
      shutdown_requested = true;
      shutdown_deadline = or_else s.shutdown_deadline (some deadline);
    }
    else s

abbrev pub is_overdue : Option ℕ → ℕ → Bool
is_overdue none now = false
is_overdue (some deadline) now = leb deadline now

abbrev pub note_stop : Bool → Progress → Progress
note_stop stop s = record s { shutdown_requested = s.shutdown_requested || stop }

-- An exception that leaves the loop, or the state to go on with.
pub data Step : Type 0 where
  go_on : Progress → Step
  leave : Progress → Step

unfoldable pub refill : Progress → Progress
refill s = if s.shutdown_requested then s else submit_one s

-- `record`, and what follows it for a future that is done.
unfoldable pub settle : Classified → AnalysisItem → Completion → Progress → Step
unfolding refill
settle raises item c s = leave s
settle (outcome o) item c s =
    if not c.stored
    then leave s
    else let counted = count_outcome item o s in
      if not c.logged then leave counted else go_on (refill (note_stop c.stop counted))

module _ (classify : AnalysisItem → Classified) where
  -- `for future in done`. A position that is not in flight stands for no future.
  unfoldable pub settle_all : List Completion → Progress → Step
  unfolding settle
  settle_all [] s = go_on s
  settle_all (c ∷ cs) s = elim (take_at c.position s.in_flight) [
    | none ↦ settle_all cs s
    | some (item, others) ↦ elim (settle (classify item) item c (record s { in_flight = others })) [
      | leave after ↦ leave after
      | go_on after ↦ settle_all cs after
    ]
  ]

-- A round with futures in flight: an end, or the state after it.
pub data RoundResult : Type 0 where
  ends : End → Progress → RoundResult
  continues : Progress → RoundResult

abbrev pub round_result : Step → RoundResult
round_result (go_on s) = continues s
round_result (leave s) = ends aborted s

abbrev pub no_flight : List AnalysisItem → Bool
no_flight [] = true
no_flight (_ ∷ _) = false

-- What follows the loop, once nothing is in flight.
abbrev pub last_end : Bool → End
last_end shutdown_requested = if shutdown_requested then shutdown else finished

module _ (classify : AnalysisItem → Classified) (grace : ℕ) where
  unfoldable pub play_round : Round → Progress → RoundResult
  unfolding settle_all
  play_round r s =
      let s1 = request_shutdown r.stop_first (r.stop_time + grace) s in
      if is_overdue s1.shutdown_deadline r.check_time then ends shutdown s1 else elim r.done [
        | [] ↦ if r.beaten then continues s1 else ends aborted s1
        | c ∷ cs ↦
            let s2 = request_shutdown r.stop_second (r.stop_second_time + grace) s1 in
            round_result (settle_all classify (c ∷ cs) s2)
      ]

  -- `while in_flight`, over the rounds that are given.
  unfoldable pub play : List Round → Progress → End × Progress
  unfolding play_round
  play [] s = (if no_flight s.in_flight then last_end s.shutdown_requested else waiting, s)
  play (r ∷ rs) s = elim (no_flight s.in_flight) [
    | true ↦ (last_end s.shutdown_requested, s)
    | false ↦ elim (play_round r s) [ ends e after ↦ (e, after) | continues after ↦ play rs after ]
  ]

  unfoldable pub run_parallel : ℕ → Bool → List AnalysisItem → List Round → End × Progress
  unfolding play submit_many
  run_parallel item_concurrency stop items rounds =
      if stop
      then (shutdown, start items)
      else play rounds (submit_many item_concurrency (start items))
