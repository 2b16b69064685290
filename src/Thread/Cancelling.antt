-- ===== src/Thread/Cancelling.antt =====
-- A request to cancel takes effect in the round that reads it.
use sm_rest.Prelude.{
  ℕ, ◌≡◌, refl, Bool, true, false, List, [], ◌∷◌, none, arith, ◌==◌, Bool-cases, ◌⊎◌, inl, inr,
}
use sm_rest.Job.State.{RestJob}
use sm_rest.Job.Finish.{finish}
use sm_rest.Job.Files.{close_files}
use sm_rest.Job.Attempt.{cancel, release_curl}
use sm_rest.Thread.{Shared, id_of, visit, visit_first, is_active, find_active, apply_cancellations}

abbrev pub ids : List RestJob → List ℕ
ids [] = []
ids (job ∷ jobs) = id_of job ∷ ids jobs

abbrev Absent : ℕ → List ℕ → Type 0
Absent job_id [] = Unit {0}
Absent job_id (other ∷ others) = ((other == job_id) ≡ false) × Absent job_id others

-- The ids of jobs come from one counter, so no two jobs of the thread share one.
abbrev pub AreDistinct : List ℕ → Type 0
AreDistinct [] = Unit {0}
AreDistinct (job_id ∷ others) = Absent job_id others × AreDistinct others

abbrev pub Requested : ℕ → List ℕ → Type 0
Requested job_id [] = ⊥
Requested job_id (request ∷ requests) = (request ≡ job_id) ⊎ Requested job_id requests

cancel_ends : (job : RestJob) → ((cancel job).finished ≡ true) × (id_of (cancel job) ≡ id_of job)
unfolding cancel release_curl close_files finish
cancel_ends job = ground arith

visit-cancel :
    (shared : Shared) (job : RestJob)
    → let after = (visit cancel shared job).1 in (after.finished ≡ true) × (id_of after ≡ id_of job)
unfolding visit
visit-cancel shared job = cancel_ends (record job { outbox = []; disk = shared.disk })

find_active-Absent :
    (job_id : ℕ) (jobs : List RestJob) → Absent job_id (ids jobs) → find_active job_id jobs ≡ none
unfolding find_active
find_active-Absent job_id [] h = refl
find_active-Absent job_id (job ∷ jobs) h = ground (arith, find_active-Absent job_id jobs h.1)

ids-visit_first :
    (test : RestJob → Bool) (shared : Shared) (jobs : List RestJob)
    → ids (visit_first test cancel shared jobs).1 ≡ ids jobs
unfolding visit_first
ids-visit_first test shared [] = refl
ids-visit_first test shared (job ∷ jobs) =
    ground (arith, visit-cancel shared job, ids-visit_first test shared jobs)

-- A job that another request cancels is no longer active, and the others are left alone.
find_active-visit_first :
    (job_id : ℕ) (test : RestJob → Bool) (shared : Shared) (jobs : List RestJob)
    → find_active job_id jobs ≡ none
    → find_active job_id (visit_first test cancel shared jobs).1 ≡ none
unfolding find_active visit_first
find_active-visit_first job_id test shared [] h = refl
find_active-visit_first job_id test shared (job ∷ jobs) h = elim (Bool-cases (test job)) [
  | inl met ↦ rw (met) (ground (arith, visit-cancel shared job))
  | inr unmet ↦ rw (unmet) (ground (arith, find_active-visit_first job_id test shared jobs))
]

find_active-cancelled :
    (job_id : ℕ) (shared : Shared) (jobs : List RestJob)
    → AreDistinct (ids jobs)
    → find_active job_id (visit_first (is_active job_id) cancel shared jobs).1 ≡ none
unfolding find_active visit_first
find_active-cancelled job_id shared [] h = refl
find_active-cancelled job_id shared (job ∷ jobs) h = elim (Bool-cases (is_active job_id job)) [
  | inl met ↦ rw (met) (ground (arith, visit-cancel shared job, find_active-Absent job_id jobs))
  | inr unmet ↦ rw (unmet) (ground (arith, find_active-cancelled job_id shared jobs h.1))
]

still_none :
    (job_id : ℕ) (requests : List ℕ) (jobs : Shared × List RestJob)
    → find_active job_id jobs.1 ≡ none
    → find_active job_id (apply_cancellations requests jobs).1 ≡ none
unfolding apply_cancellations
still_none job_id [] jobs h = h
still_none job_id (request ∷ requests) jobs h =
    still_none job_id requests _
      (find_active-visit_first job_id (is_active request) jobs.0 jobs.1 h)

-- Where no two jobs share an id, each job that a request names is over when the requests are applied.
pub apply_cancellations-ends :
    (job_id : ℕ) (requests : List ℕ) (shared : Shared) (active : List RestJob)
    → AreDistinct (ids active)
    → Requested job_id requests
    → find_active job_id (apply_cancellations requests (shared, active)).1 ≡ none
unfolding apply_cancellations
apply_cancellations-ends job_id [] shared active h impossible = elim impossible [ ]
apply_cancellations-ends job_id (request ∷ requests) shared active h (inl e) =
    still_none job_id requests (visit_first (is_active request) cancel shared active)
      (rw (e) (find_active-cancelled job_id shared active h))
apply_cancellations-ends job_id (request ∷ requests) shared active h (inr r) =
    let next = visit_first (is_active request) cancel shared active in
    apply_cancellations-ends job_id requests next.0 next.1
      (rw (ids-visit_first (is_active request) shared active) h) r
