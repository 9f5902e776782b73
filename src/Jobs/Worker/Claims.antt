-- ===== src/Jobs/Worker/Claims.antt =====
-- Which job a worker takes.
use mathlib.Core.List.{head?}
use hate_speech_rag_service.Common.{
  ℕ, ◌≤◌, Bool, true, false, not, ◌&&◌, Option, none, some, List, [], ◌∷◌, ◌≡◌, refl, arith, filter,
  any, All, All-map, sort_by, insert_by, leb, if◌then◌else◌, Bool-cases, inl, inr, subst, ◌∙◌, sym,
}
use hate_speech_rag_service.Db.JobRows.{AnalysisJob, job_pending}
use hate_speech_rag_service.Db.Database.{Database}
use hate_speech_rag_service.Jobs.Repository.{claim_pending}
use hate_speech_rag_service.Jobs.Worker.{Poll, idle, ran}

-- The head of a sorted list is one of its elements, and no other has a smaller key.
pub record IsFirst {ℓ} {A : Type ℓ} (key : A → ℕ) (p : A → Bool) (xs : List A) (x : A)
    : Type ℓ where
  pub chosen : p x ≡ true
  pub least : All (λ y. p y ≡ true → key x ≤ key y) xs

module _ {ℓ} {A : Type ℓ} (key : A → ℕ) where
  picked : A → Option A → Option A
  picked x none = some x
  picked x (some y) = if leb (key x) (key y) then some x else some y

  head?-picked : (x : A) (ys : List A) → head? (insert_by key x ys) ≡ picked x (head? ys)
  unfolding picked
  head?-picked x [] = refl
  head?-picked x (y ∷ ys) = ground arith

  picked-some : (x : A) (o : Option A) → (y : A) × (picked x o ≡ some y)
  unfolding picked
  picked-some x none = (x, refl)
  picked-some x (some y) = elim (Bool-cases (leb (key x) (key y))) [
    | inl e ↦ (x, ground (arith, e))
    | inr e ↦ (y, ground (arith, e))
  ]

  picked_same : (x y : A) → some x ≡ some y → x ≡ y
  picked_same x y h = ground arith

  module _ (p : A → Bool) where
    head?-filter-false :
        (y : A) (ys : List A)
        → p y ≡ false
        → head? (sort_by key (filter p (y ∷ ys))) ≡ head? (sort_by key (filter p ys))
    head?-filter-false y ys e = rw e refl

    head?-filter-true :
        (y : A) (ys : List A)
        → p y ≡ true
        → head? (sort_by key (filter p (y ∷ ys))) ≡ picked y (head? (sort_by key (filter p ys)))
    head?-filter-true y ys e = rw e (head?-picked y (sort_by key (filter p ys)))

    sort-none : (xs : List A) → head? (sort_by key (filter p xs)) ≡ none → any p xs ≡ false
    sort-none [] h = refl
    sort-none (y ∷ ys) h = elim (Bool-cases (p y)) [
      | inl e ↦
          let (z, k) = picked-some y (head? (sort_by key (filter p ys))) in
          absurd (cc (h, head?-filter-true y ys e, k))
      | inr e ↦ ground (arith, sort-none ys (sym (head?-filter-false y ys e) ∙ h), e)
    ]

    All-vacuous : (k : ℕ) (xs : List A) → any p xs ≡ false → All (λ y. p y ≡ true → k ≤ key y) xs
    All-vacuous k [] h = tt
    All-vacuous k (y ∷ ys) h =
        ((λ e. absurd (ground (arith, h, e))), All-vacuous k ys (ground (arith, h)))

    picked-IsFirst :
        (y : A) (ys : List A) (x : A)
        → p y ≡ true
        → (o : Option A) → head? (sort_by key (filter p ys)) ≡ o
        → ((z : A) → o ≡ some z → IsFirst key p ys z)
        → picked y o ≡ some x
        → IsFirst key p (y ∷ ys) x
    unfolding picked
    picked-IsFirst y ys x e none n ih h =
        subst (IsFirst key p (y ∷ ys)) (picked_same y x h) (record {
          chosen = e;
          least = ((λ k. omega arith), All-vacuous (key y) ys (sort-none ys n));
        })
    picked-IsFirst y ys x e (some z) n ih h = elim (Bool-cases (leb (key y) (key z))) [
      | inl l ↦ subst (IsFirst key p (y ∷ ys)) (picked_same y x (ground (arith, h, l))) (record {
        chosen = e;
        least = (
          (λ k. omega arith),
          All-map (λ w. p w ≡ true → key z ≤ key w) (λ w. p w ≡ true → key y ≤ key w) ys
              (λ w m k. ground (arith, m k, l)) (ih z refl).least,
        );
      })
      | inr l ↦ subst (IsFirst key p (y ∷ ys)) (picked_same z x (ground (arith, h, l))) (record {
        chosen = (ih z refl).chosen;
        least = ((λ k. ground (arith, l)), (ih z refl).least);
      })
    ]

    sort-IsFirst :
        (xs : List A) (x : A) → head? (sort_by key (filter p xs)) ≡ some x → IsFirst key p xs x
    sort-IsFirst [] x h = ground arith
    sort-IsFirst (y ∷ ys) x h = elim (Bool-cases (p y)) [
      | inl e ↦
          picked-IsFirst y ys x e (head? (sort_by key (filter p ys))) refl (sort-IsFirst ys)
            (sym (head?-filter-true y ys e) ∙ h)
      | inr e ↦
          let rest = sort-IsFirst ys x (sym (head?-filter-false y ys e) ∙ h) in
          record {
            chosen = rest.chosen;
            least = ((λ k. absurd (ground (arith, e, k))), rest.least);
          }
    ]

abbrev pub is_claimable : (ℕ → Bool) → AnalysisJob → Bool
is_claimable locked job = job_pending job.status && not (locked job.id)

-- The job that is claimed is pending and not locked, and no other such job was created before it; if
-- none is claimed there is no such job.
pub record IsClaimed (locked : ℕ → Bool) (db : Database) (job : AnalysisJob) : Type 0 where
  pub claimable : is_claimable locked job ≡ true
  pub oldest :
      All
        (λ other. is_claimable locked other ≡ true → job.created_at ≤ other.created_at)
        db.analysis_jobs

abbrev pub ClaimHolds : (ℕ → Bool) → Database → Option AnalysisJob → Type 0
ClaimHolds locked db none = any (is_claimable locked) db.analysis_jobs ≡ false
ClaimHolds locked db (some job) = IsClaimed locked db job

pub claim_pending-ClaimHolds :
    (locked : ℕ → Bool) (db : Database) → ClaimHolds locked db (claim_pending locked db)
unfolding claim_pending
claim_pending-ClaimHolds locked db = go (claim_pending locked db) refl
  where
    go : (o : Option AnalysisJob) → claim_pending locked db ≡ o → ClaimHolds locked db o
    go none e = sort-none (λ job. job.created_at) (is_claimable locked) db.analysis_jobs e
    go (some job) e =
        let first = sort-IsFirst (λ j. j.created_at) (is_claimable locked) db.analysis_jobs job e in
        record { claimable = first.chosen; oldest = first.least }

-- What `run_once` must lead to, after the recovery of a stale job.
abbrev pub PollHolds : (ℕ → Bool) → Database → Poll → Type 0
PollHolds locked ready (idle after) =
    (after ≡ ready) × (any (is_claimable locked) ready.analysis_jobs ≡ false)
PollHolds locked ready (ran job_id end) =
    (job : AnalysisJob) × (job.id ≡ job_id) × IsClaimed locked ready job
