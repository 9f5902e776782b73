-- ===== src/Analysis/Retry/Bounds.antt =====
-- How long a retried operation can take.
use hate_speech_rag_service.Common.{
  ℕ, zero, suc, ◌+◌, ◌-◌, ◌≤◌, ◌<◌, true, some, ◌≡◌, ◌≢◌, ◌⊎◌, inl, inr, refl, nat_Eq, length, All,
  Option-cases, arith, nat_eq_iff, subst,
}
use hate_speech_rag_service.Analysis.Retry.{
  RetryPolicy, raises, Task, End, exited, Trace, backoff, delay, attempts, run, Next, finished,
  again, slept, attempt_once,
}

backoff-le : (policy : RetryPolicy) (attempt : ℕ) → backoff policy attempt ≤ policy.max_delay
unfolding backoff
backoff-le policy attempt = omega arith

module _ {ℓ κ} {E : Type ℓ} {A : Type κ} (policy : RetryPolicy) (task : Task E A) where
  -- At most the policy's longest delay, or what the server asked for.
  abbrev pub IsDelay : ℕ → Type ℓ
  IsDelay d = (d ≤ policy.max_delay) ⊎ ((e : E) × (task.retry_after e ≡ some d))

  pub record IsBounded (rounds : ℕ) (t : Trace E A) : Type (ℓ ⊔ κ) where
    pub ends : t.result ≢ exited
    pub few_calls : t.calls ≤ rounds
    pub fewer_delays : length t.delays + 1 ≤ rounds
    pub known_delays : All IsDelay t.delays

  delay-IsDelay : (e : E) (attempt : ℕ) → IsDelay (delay policy task e attempt)
  unfolding delay
  delay-IsDelay e attempt = elim (Option-cases (task.retry_after e)) [
    | inl n ↦ rw (n, delay) (inl (backoff-le policy attempt))
    | inr (d, s) ↦ rw (s, delay) (inr (e, s))
  ]

  slept-IsBounded :
      (rounds d : ℕ) (t : Trace E A)
      → IsDelay d
      → IsBounded rounds t
      → IsBounded (suc rounds) (slept d t)
  slept-IsBounded rounds d t h b = record {
    ends = b.ends;
    few_calls = omega (arith, b.few_calls);
    fewer_delays = omega (arith, b.fewer_delays);
    known_delays = (h, b.known_delays);
  }

  finished_lem :
      (attempt : ℕ) {end : End E A} {calls : ℕ}
      → attempt_once policy task attempt ≡ finished end calls
      → (end ≢ exited) × (calls ≤ 1)
  unfolding attempt_once
  finished_lem attempt h = ground arith

  pub again_lem :
      (attempt d : ℕ)
      → attempt_once policy task attempt ≡ again d
      → (attempt ≢ policy.max_attempts)
        × ((e : E) × (task.operation attempt ≡ raises e)
            × (task.is_retryable e ≡ true)
            × (d ≡ delay policy task e attempt))
  unfolding attempt_once
  again_lem attempt d h = ground (arith, nat_eq_iff attempt policy.max_attempts)

  again-IsDelay : (attempt d : ℕ) → attempt_once policy task attempt ≡ again d → IsDelay d
  again-IsDelay attempt d h =
      let (_, (e, _, _, same)) = again_lem attempt d h in rw same (delay-IsDelay e attempt)

  round-IsBounded :
      (rounds attempt : ℕ)
      → (attempt ≢ policy.max_attempts
          → IsBounded rounds (attempts policy task rounds (suc attempt)))
      → IsBounded (suc rounds) (attempts policy task (suc rounds) attempt)
  unfolding attempts
  round-IsBounded rounds attempt later = go (attempt_once policy task attempt) refl
    where
      go :
          (n : Next E A)
          → attempt_once policy task attempt ≡ n
          → IsBounded (suc rounds) (attempts policy task (suc rounds) attempt)
      go (finished end calls) h =
          let facts = finished_lem attempt h in
          rw (h, attempts)
            (record {
              ends = facts.0;
              few_calls = omega (arith, facts.1);
              fewer_delays = omega arith;
              known_delays = tt;
            })
      go (again d) h =
          rw (h, attempts)
            (slept-IsBounded rounds d _ (again-IsDelay attempt d h)
              (later (again_lem attempt d h).0))

  attempts-IsBounded :
      (rounds attempt : ℕ)
      → attempt + rounds ≡ policy.max_attempts
      → IsBounded (suc rounds) (attempts policy task (suc rounds) attempt)
  attempts-IsBounded zero attempt h =
      round-IsBounded zero attempt (λ other. absurd (other (omega arith)))
  attempts-IsBounded (suc rounds) attempt h =
      round-IsBounded (suc rounds) attempt
        (λ _. attempts-IsBounded rounds (suc attempt) (omega arith))

-- With at least one attempt allowed, `run` never falls out of its loop, calls the operation at most
-- `max_attempts` times, sleeps fewer times than that, and each delay is at most the policy's longest
-- or is one that the server asked for.
pub run-IsBounded {ℓ κ} :
    {E : Type ℓ} {A : Type κ} (policy : RetryPolicy) (task : Task E A)
    → 0 < policy.max_attempts
    → IsBounded policy task policy.max_attempts (run policy task)
unfolding run
run-IsBounded policy task h =
    subst (λ n. IsBounded policy task n (attempts policy task n 1)) enough
      (attempts-IsBounded policy task (policy.max_attempts - 1) 1 (omega arith))
  where
    enough : suc (policy.max_attempts - 1) ≡ policy.max_attempts
    enough = omega arith
