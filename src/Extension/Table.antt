-- ===== src/Extension/Table.antt =====
-- The map of the jobs: what its operations find, and where their keys stay.
use sm_rest.Prelude.{
  ℕ, suc, ◌<◌, ◌≡◌, refl, Bool, true, false, List, [], ◌∷◌, ◌++◌, none, some, arith, if_cases,
  if◌then◌else◌, ◌==◌,
}
use sm_rest.Thread.{TransferThread, request_cancel}
use sm_rest.Extension.{JobRecord, JobMap, find, erase, assign, drop_job, drop_jobs, release_record}

pub find-assign {ℓ} :
    {A : Type ℓ} (jobs : List (ℕ × A)) (key job_id : ℕ) (new : A)
    → find (assign jobs key new) job_id ≡ (if key == job_id then some new else find jobs job_id)
unfolding find assign
find-assign [] key job_id new = refl
find-assign ((other, entry) ∷ jobs) key job_id new = ground (arith, find-assign jobs key job_id new)

-- Every key is below the bound.
abbrev pub Below : ℕ → JobMap → Type 0
Below bound [] = Unit {0}
Below bound ((key, entry) ∷ jobs) = (key < bound) × Below bound jobs

pub Below-mono : (bound : ℕ) (jobs : JobMap) → Below bound jobs → Below (suc bound) jobs
Below-mono bound [] below = tt
Below-mono bound ((key, entry) ∷ jobs) below =
    (omega (arith, below.0), Below-mono bound jobs below.1)

pub find-Below : (bound : ℕ) (jobs : JobMap) → Below bound jobs → find jobs bound ≡ none
unfolding find
find-Below bound [] below = refl
find-Below bound ((key, entry) ∷ jobs) below = ground (arith, find-Below bound jobs below.1)

pub assign-Below :
    (bound : ℕ) (jobs : JobMap) (key : ℕ) (new : JobRecord)
    → key < bound
    → Below bound jobs
    → Below bound (assign jobs key new)
unfolding assign
assign-Below bound [] key new h below = (h, tt)
assign-Below bound ((other, entry) ∷ jobs) key new h below =
    ground (arith, assign-Below bound jobs key new h below.1)

pub erase-Below :
    (bound : ℕ) (jobs : JobMap) (key : ℕ) → Below bound jobs → Below bound (erase jobs key)
unfolding erase
erase-Below bound [] key below = tt
erase-Below bound ((other, entry) ∷ jobs) key below =
    ground (arith, erase-Below bound jobs key below.1)

pub find-bounded :
    (bound : ℕ) (jobs : JobMap) (key : ℕ) (entry : JobRecord)
    → Below bound jobs
    → find jobs key ≡ some entry
    → key < bound
unfolding find
find-bounded bound [] key entry below h = absurd cc
find-bounded bound ((other, first) ∷ jobs) key entry below h =
    ground (arith, find-bounded bound jobs key entry below.1)

-- What the loop makes of the first entry, by cases: it is passed over, marked or released.
pub drop_jobs_cases {κ} :
    (P : JobMap × (TransferThread × List ℕ) → Type κ) (test : JobRecord → Bool) (key : ℕ)
    (entry : JobRecord) (jobs : JobMap) (thread : TransferThread) (released : List ℕ)
    → (let later = drop_jobs test jobs (thread, released) in P ((key, entry) ∷ later.0, later.1))
    → (entry.dispatching ≡ true
        → let later = drop_jobs test jobs (request_cancel thread key, released) in
          P ((key, record entry { dropped = true }) ∷ later.0, later.1))
    → (entry.dispatching ≡ false
        → P (drop_jobs test jobs (request_cancel thread key, release_record released entry)))
    → P (drop_jobs test ((key, entry) ∷ jobs) (thread, released))
unfolding drop_jobs drop_job
drop_jobs_cases P test key entry jobs thread released passed marked freed =
    let after = λ (here : JobMap × (TransferThread × List ℕ)).
      let later = drop_jobs test jobs here.1 in P (here.0 ++ later.0, later.1) in
    if_cases after (test entry) _ _ (λ met. if_cases after entry.dispatching _ _ marked freed)
      (λ unmet. passed)

pub drop_jobs-Below :
    (bound : ℕ) (test : JobRecord → Bool) (jobs : JobMap) (thread : TransferThread)
    (released : List ℕ)
    → Below bound jobs
    → Below bound (drop_jobs test jobs (thread, released)).0
unfolding drop_jobs
drop_jobs-Below bound test [] thread released below = tt
drop_jobs-Below bound test ((key, entry) ∷ jobs) thread released below =
    drop_jobs_cases (λ r. Below bound r.0) test key entry jobs thread released
      (below.0, drop_jobs-Below bound test jobs thread released below.1)
      (λ busy. (below.0, drop_jobs-Below bound test jobs _ released below.1))
      (λ idle. drop_jobs-Below bound test jobs _ _ below.1)
