-- ===== src/Analysis/Retry.antt =====
-- RetryPolicy of app/analysis/retry.py. Times are whole microseconds, so the jitter's fraction of a
-- microsecond is cut. The operation, the clock's sleep and the random numbers come from outside: an
-- attempt's number tells which call of them is meant.
pub mod Bounds
pub mod Outcomes
use hate_speech_rag_service.Common.{
  ℕ, zero, suc, ◌+◌, ◌-◌, ◌*◌, ◌/◌, ◌^◌, min, Bool, true, false, not, ◌||◌, Option, none, some,
  List, [], ◌∷◌, ◌==◌, nat_Eq, if◌then◌else◌,
}

pub record RetryPolicy : Type 0 where
  pub max_attempts : ℕ
  pub base_delay : ℕ
  pub max_delay : ℕ
  -- `jitter_ratio` in hundredths.
  pub jitter_percent : ℕ
  -- `random_value()` after an attempt, in millionths.
  pub random_value : ℕ → ℕ

pub data Call {ℓ κ} (E : Type ℓ) (A : Type κ) : Type (ℓ ⊔ κ) where
  returns : A → Call E A
  raises : E → Call E A

-- What the caller hands to `run`. `should_stop` is asked before an attempt and after a failed one.
pub record Task {ℓ κ} (E : Type ℓ) (A : Type κ) : Type (ℓ ⊔ κ) where
  pub operation : ℕ → Call E A
  pub is_retryable : E → Bool
  pub retry_after : E → Option ℕ
  pub stop_before : ℕ → Bool
  pub stop_after : ℕ → Bool

pub data End {ℓ κ} (E : Type ℓ) (A : Type κ) : Type (ℓ ⊔ κ) where
  value : A → End E A
  raised : E → End E A
  cancelled exited : End E A

-- How `run` ends, how often it called the operation, and the delays that it slept.
pub record Trace {ℓ κ} (E : Type ℓ) (A : Type κ) : Type (ℓ ⊔ κ) where
  pub result : End E A
  pub calls : ℕ
  pub delays : List ℕ

-- A round ends the call, after so many calls of the operation, or sleeps before the next.
pub data Next {ℓ κ} (E : Type ℓ) (A : Type κ) : Type (ℓ ⊔ κ) where
  finished : End E A → ℕ → Next E A
  again : ℕ → Next E A

abbrev pub slept {ℓ κ} : {E : Type ℓ} {A : Type κ} → ℕ → Trace E A → Trace E A
slept d t = record { result = t.result; calls = suc t.calls; delays = d ∷ t.delays }

module _ (policy : RetryPolicy) where
  unfoldable pub backoff : ℕ → ℕ
  backoff attempt =
      let base = min (policy.base_delay * 2 ^ (attempt - 1)) policy.max_delay in
      min (base + base * policy.jitter_percent * policy.random_value attempt / 100_000_000)
        policy.max_delay

module _ {ℓ κ} {E : Type ℓ} {A : Type κ} (policy : RetryPolicy) (task : Task E A) where
  unfoldable pub delay : E → ℕ → ℕ
  unfolding backoff
  delay e attempt = elim (task.retry_after e) [ none ↦ backoff policy attempt | some d ↦ d ]

  -- One round: what the body of the `for` loop does at an attempt.
  unfoldable pub attempt_once : ℕ → Next E A
  unfolding delay
  attempt_once attempt =
      if task.stop_before attempt then finished cancelled 0 else elim (task.operation attempt) [
        | returns a ↦ finished (value a) 1
        | raises e ↦
            if attempt == policy.max_attempts || not (task.is_retryable e)
            then finished (raised e) 1
            else if task.stop_after attempt
            then finished cancelled 1
            else again (delay e attempt)
      ]

  -- The loop with `rounds` rounds left; with none left it falls through to the RuntimeError.
  unfoldable pub attempts : ℕ → ℕ → Trace E A
  attempts zero attempt = record { result = exited; calls = 0; delays = [] }
  attempts (suc rounds) attempt = elim (attempt_once attempt) [
    | finished end calls ↦ record { result = end; calls = calls; delays = [] }
    | again d ↦ slept d (attempts rounds (suc attempt))
  ]

  unfoldable pub run : Trace E A
  unfolding attempts
  run = attempts policy.max_attempts 1
