-- ===== src/Thread/Wait.antt =====
-- How long the thread may wait for curl.
use sm_rest.Prelude.{ℕ, ◌-◌, ◌≤◌, min, not, List, [], ◌∷◌, arith, if◌then◌else◌}
use sm_rest.Prelude.Int.{pos_part}
use sm_rest.Job.State.{RestJob}
use sm_rest.Thread.{remaining_ms, wait_from, compute_wait_ms, max_wait_ms}

-- No retry is slept over: the wait ends by the time of each retry that is scheduled.
abbrev pub EndsBy : ℕ → ℕ → List RestJob → Type 0
EndsBy now wait [] = Unit {0}
EndsBy now wait (job ∷ jobs) =
    (if job.waiting_for_retry then wait ≤ pos_part job.retry_at - now else Unit {0})
    × EndsBy now wait jobs

wait_from-le : (now wait : ℕ) (jobs : List RestJob) → wait_from now wait jobs ≤ wait
unfolding wait_from
wait_from-le now wait [] = omega arith
wait_from-le now wait (job ∷ jobs) =
    ground
      (arith, wait_from-le now wait jobs, wait_from-le now (min wait (remaining_ms now job)) jobs)

wait_from-EndsBy : (now wait : ℕ) (jobs : List RestJob) → EndsBy now (wait_from now wait jobs) jobs
unfolding wait_from
wait_from-EndsBy now wait [] = tt
wait_from-EndsBy now wait (job ∷ jobs) = (
  ground (arith, wait_from-le now (min wait (remaining_ms now job)) jobs),
  wait_from-EndsBy now (if not job.waiting_for_retry then wait else min wait (remaining_ms now job))
      jobs,
)

-- The thread waits at most a second, and for no scheduled retry beyond its time.
pub compute_wait_ms-EndsBy :
    (now : ℕ) (active : List RestJob)
    → (compute_wait_ms now active ≤ max_wait_ms) × EndsBy now (compute_wait_ms now active) active
unfolding compute_wait_ms
compute_wait_ms-EndsBy now active =
    (wait_from-le now max_wait_ms active, wait_from-EndsBy now max_wait_ms active)
