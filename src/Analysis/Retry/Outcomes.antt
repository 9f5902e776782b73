-- ===== src/Analysis/Retry/Outcomes.antt =====
-- Which end a retried operation comes to.
use hate_speech_rag_service.Common.{
  ℕ, zero, suc, ◌+◌, ◌≤◌, ◌<◌, true, false, ◌≡◌, ◌≢◌, ◌⊎◌, refl, nat_Eq, length, ap, ◌-◌, ◌∙◌, sym,
  subst, arith, nat_eq_iff,
}
use hate_speech_rag_service.Analysis.Retry.{
  RetryPolicy, returns, raises, Task, value, raised, Trace, delay, attempts, run, Next, finished,
  again, attempt_once,
}

module _ {ℓ κ} {E : Type ℓ} {A : Type κ} (policy : RetryPolicy) (task : Task E A) where
  -- The attempt fails, may be repeated, and nobody asks to stop.
  pub record GoesOn (attempt : ℕ) : Type (ℓ ⊔ κ) where
    pub error : E
    pub fails : task.operation attempt ≡ raises error
    pub retryable : task.is_retryable error ≡ true
    pub not_stopped_before : task.stop_before attempt ≡ false
    pub not_stopped_after : task.stop_after attempt ≡ false

  goes_on :
      (attempt : ℕ)
      → attempt ≢ policy.max_attempts
      → (g : GoesOn attempt)
      → attempt_once policy task attempt ≡ again (delay policy task g.error attempt)
  unfolding attempt_once
  goes_on attempt other g = ground (
    arith,
    nat_eq_iff attempt policy.max_attempts,
    g.fails,
    g.retryable,
    g.not_stopped_before,
    g.not_stopped_after,
  )

  Succeeds : A → ℕ → Trace E A → Type (ℓ ⊔ κ)
  Succeeds a failures t =
      (t.result ≡ value a) × (t.calls ≡ suc failures) × (length t.delays ≡ failures)

  returns_now :
      (attempt : ℕ) (a : A)
      → task.stop_before attempt ≡ false
      → task.operation attempt ≡ returns a
      → attempt_once policy task attempt ≡ finished (value a) 1
  unfolding attempt_once
  returns_now attempt a stop ok = ground arith

  attempts_succeed :
      (failures rounds attempt last : ℕ) (a : A)
      → attempt + failures ≡ last
      → failures < rounds
      → attempt + rounds ≡ suc policy.max_attempts
      → ((k : ℕ) → k < last → attempt ≤ k → GoesOn k)
      → task.stop_before last ≡ false
      → task.operation last ≡ returns a
      → Succeeds a failures (attempts policy task rounds attempt)
  unfolding attempts Succeeds
  attempts_succeed failures zero attempt last a eq lt h fails stop ok = absurd (omega arith)
  attempts_succeed zero (suc rounds) attempt last a eq lt h fails stop ok =
      let same : attempt ≡ last = omega arith in
      rw (same, returns_now last a stop ok, attempts) (refl, refl, refl)
  attempts_succeed (suc failures) (suc rounds) attempt last a eq lt h fails stop ok =
      let g = fails attempt (omega arith) (omega arith) in
      let (r, c, d) =
        attempts_succeed failures rounds (suc attempt) last a (omega arith) (omega arith)
          (omega arith) (λ k below above. fails k below (omega arith)) stop ok in
      rw (goes_on attempt (omega arith) g, attempts) (r, ap suc c, ap suc d)

-- Where all attempts before attempt `last` fail with errors that can be retried, attempt `last`, within
-- the number allowed, returns a value, and nobody asks to stop until then, `run` returns that value
-- after `last` calls, having slept once after each failed one.
pub run_succeeds {ℓ κ} :
    {E : Type ℓ} {A : Type κ} (policy : RetryPolicy) (task : Task E A) (last : ℕ) (a : A)
    → 0 < last
    → last ≤ policy.max_attempts
    → ((k : ℕ) → k < last → 1 ≤ k → GoesOn policy task k)
    → task.stop_before last ≡ false
    → task.operation last ≡ returns a
    → ((run policy task).result ≡ value a)
      × ((run policy task).calls ≡ last)
      × (length (run policy task).delays + 1 ≡ last)
unfolding run Succeeds
run_succeeds policy task last a pos le fails stop ok =
    let (r, c, d) =
      attempts_succeed policy task (last - 1) policy.max_attempts 1 last a (omega arith)
        (omega arith) (omega arith) fails stop ok in
    (r, omega (arith, c), omega (arith, d))

-- The round that ended a call with an error: it raised it, and was the last one or could not be
-- repeated.
pub record GivesUp {ℓ κ} {E : Type ℓ} {A : Type κ} (policy : RetryPolicy) (task : Task E A) (e : E)
    (attempt : ℕ) : Type (ℓ ⊔ κ) where
  pub fails : task.operation attempt ≡ raises e
  pub final : (attempt ≡ policy.max_attempts) ⊎ (task.is_retryable e ≡ false)

module _ {ℓ κ} {E : Type ℓ} {A : Type κ} (policy : RetryPolicy) (task : Task E A) where
  finished_raised :
      (attempt calls : ℕ) (e : E)
      → attempt_once policy task attempt ≡ finished (raised e) calls
      → GivesUp policy task e attempt × (calls ≡ 1)
  unfolding attempt_once
  finished_raised attempt calls e h = ground (arith, nat_eq_iff attempt policy.max_attempts)

  attempts_raise :
      (rounds attempt : ℕ) (e : E)
      → (attempts policy task rounds attempt).result ≡ raised e
      → (k : ℕ) × (suc k ≡ (attempts policy task rounds attempt).calls)
        × GivesUp policy task e (attempt + k)
  unfolding attempts
  attempts_raise zero attempt e h = cc
  attempts_raise (suc rounds) attempt e h =
      go (attempt_once policy task attempt) refl (attempts_raise rounds (suc attempt) e)
    where
      go :
          (n : Next E A)
          → attempt_once policy task attempt ≡ n
          → ((attempts policy task rounds (suc attempt)).result ≡ raised e
              → (k : ℕ) × (suc k ≡ (attempts policy task rounds (suc attempt)).calls)
                × GivesUp policy task e (suc attempt + k))
          → (k : ℕ) × (suc k ≡ (attempts policy task (suc rounds) attempt).calls)
            × GivesUp policy task e (attempt + k)
      go (finished end calls) s later =
          let ended : end ≡ raised e = rw (s, attempts) at h in
          let facts = finished_raised attempt calls e (s ∙ ap (λ r. finished r calls) ended) in
          (0, rw (s, attempts) (sym facts.1), subst (GivesUp policy task e) (omega arith) facts.0)
      go (again d) s later =
          let (k, c, g) = later (rw (s, attempts) at h) in
          (suc k, rw (s, attempts) (ap suc c), subst (GivesUp policy task e) (omega arith) g)

-- Where `run` raises an error, its last call of the operation raised it, and either that was the last
-- attempt allowed or the error is one that may not be retried.
pub run_raises {ℓ κ} :
    {E : Type ℓ} {A : Type κ} (policy : RetryPolicy) (task : Task E A) (e : E)
    → (run policy task).result ≡ raised e
    → GivesUp policy task e (run policy task).calls
unfolding run
run_raises policy task e h =
    let (k, c, g) = attempts_raise policy task policy.max_attempts 1 e h in
    subst (GivesUp policy task e) (omega (arith, c)) g
