-- ===== src/Extension/Dropping.antt =====
-- Which jobs go when a plugin is unloaded or a client is closed.
use sm_rest.Prelude.{
  ℕ, ◌≡◌, refl, sym, ap, ◌∙◌, Bool, false, not, List, [], ◌∷◌, ◌++◌, append_assoc, append-nil, none,
  Bytes, arith, if◌then◌else◌, Bool-cases, inl, inr,
}
use sm_rest.Thread.{TransferThread, request_cancel}
use sm_rest.Extension.{JobRecord, JobMap, release_record, loaded, drop_job, drop_jobs, drop_where}
use sm_rest.Extension.Dispatch.{release_all}
use sm_rest.Extension.Acts.{Act, act_all}
use sm_rest.Extension.Idle.{IdleBut}
use sm_rest.Extension.Orderly.{act_all-IdleBut}

-- The records that pass a test, in their order.
abbrev pub chosen : (JobRecord → Bool) → JobMap → JobMap
chosen test [] = []
chosen test ((key, entry) ∷ jobs) =
    if test entry then (key, entry) ∷ chosen test jobs else chosen test jobs

abbrev pub keys_of : JobMap → List ℕ
keys_of [] = []
keys_of ((key, entry) ∷ jobs) = key ∷ keys_of jobs

abbrev cancel_each : TransferThread → JobMap → TransferThread
cancel_each thread [] = thread
cancel_each thread ((key, entry) ∷ jobs) = cancel_each (request_cancel thread key) jobs

abbrev pub fails : (JobRecord → Bool) → JobRecord → Bool
fails test entry = not (test entry)

drop_job_idle :
    (key : ℕ) (entry : JobRecord) (thread : TransferThread) (released : List ℕ)
    → entry.dispatching ≡ false
    → drop_job (key, entry) (thread, released)
      ≡ ([], (request_cancel thread key, release_record released entry))
unfolding drop_job
drop_job_idle key entry thread released still = rw (still) refl

drop_jobs_exact :
    (test : JobRecord → Bool) (jobs : JobMap) (thread : TransferThread) (released : List ℕ)
    → IdleBut none jobs
    → drop_jobs test jobs (thread, released) ≡ (
      chosen (fails test) jobs,
      (cancel_each thread (chosen test jobs), release_all (chosen test jobs) released),
    )
unfolding drop_jobs drop_job release_all
drop_jobs_exact test [] thread released idle = refl
drop_jobs_exact test ((key, entry) ∷ jobs) thread released idle =
    let still : entry.dispatching ≡ false = ground (arith, idle.0) in
    elim (Bool-cases (test entry)) [
      | inl passes ↦
          rw
            (
              passes,
              drop_job_idle key entry thread released still,
              drop_jobs_exact test jobs (request_cancel thread key) (release_record released entry)
                  idle.1,
            )
            refl
      | inr spared ↦ rw (spared, drop_jobs_exact test jobs thread released idle.1) refl
    ]

cancel_each-requests :
    (thread : TransferThread) (jobs : JobMap)
    → (cancel_each thread jobs).cancel_requests ≡ thread.cancel_requests ++ keys_of jobs
unfolding request_cancel
cancel_each-requests thread [] = sym (append-nil thread.cancel_requests)
cancel_each-requests thread ((key, entry) ∷ jobs) =
    cancel_each-requests (request_cancel thread key) jobs
    ∙ append_assoc thread.cancel_requests (key ∷ []) (keys_of jobs)

-- When a plugin is unloaded, or a client's jobs are dropped, between two events: exactly the records
-- that the loop is about are gone, with their forwards released and each job cancelled once, in the
-- order of the map; all other records stay as they were.
pub drop_where_exact :
    (thread : TransferThread) (ca_bundle_path : Bytes) (verbose : Bool) (acts : List Act)
    (test : JobRecord → Bool)
    → let before = act_all (loaded thread ca_bundle_path verbose) acts in
      let after = drop_where test before in
      (after.jobs ≡ chosen (fails test) before.jobs)
      × (after.released ≡ release_all (chosen test before.jobs) before.released)
      × (after.thread.cancel_requests
          ≡ before.thread.cancel_requests ++ keys_of (chosen test before.jobs))
unfolding drop_where
drop_where_exact thread ca_bundle_path verbose acts test =
    let before = act_all (loaded thread ca_bundle_path verbose) acts in
    let exact =
      drop_jobs_exact test before.jobs before.thread before.released
        (act_all-IdleBut thread ca_bundle_path verbose acts) in
    (
      ap (λ (r : JobMap × (TransferThread × List ℕ)). r.0) exact,
      ap (λ (r : JobMap × (TransferThread × List ℕ)). r.1.1) exact,
      ap (λ (r : JobMap × (TransferThread × List ℕ)). r.1.0.cancel_requests) exact
          ∙ cancel_each-requests before.thread (chosen test before.jobs),
    )
