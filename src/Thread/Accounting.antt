-- ===== src/Thread/Accounting.antt =====
-- Every job that the thread takes is accounted for.
use sm_rest.Prelude.{
  ℕ, false, ◌+◌, ◌≡◌, refl, ◌∙◌, Bool, true, List, [], ◌∷◌, ◌++◌, append-nil, arith, if◌then◌else◌,
  Bool-cases, inl, inr,
}
use sm_rest.Queue.{TransferEvent, MainThreadQueue, post, post_all}
use sm_rest.Job.State.{RestJob}
use sm_rest.Job.Attempt.{on_attempt_done, cancel}
use sm_rest.Job.Retry.{is_retry_due}
use sm_rest.Job.History.{Call, consumes, ends, cancels, step}
use sm_rest.Job.Completion.{
  weigh, completions, weigh-append, Balanced, step-balance, begin_attempt-balance,
}
use sm_rest.Thread.{
  Shared, TransferThread, visit, visit_first, visit_all, Begins, begin_call, admit_incoming,
  is_active, apply_cancellations, consume_call, apply_consumed, start_due_retries, is_attached,
  perform, Message, done, other_message, reap_completed, remove_finished, RoundAnswers, Pending,
  take_pending, round_jobs, round,
}

-- What the jobs weigh that have their completion still to come, each by its id.
abbrev pub owed_by : (ℕ → ℕ) → List RestJob → ℕ
owed_by weight [] = 0
owed_by weight (job ∷ jobs) = (if job.finished then 0 else weight job.spec.id) + owed_by weight jobs

-- How many of the jobs have their completion still to come.
abbrev pub owed : List RestJob → ℕ
owed jobs = owed_by (λ job_id. 1) jobs

abbrev Part : Type 0
Part = Shared × List RestJob → Shared × List RestJob

-- The parts of a round that come after the admission.
abbrev rest_of_round : RoundAnswers → Pending → Part
rest_of_round answers pending jobs = reap_completed answers.messages (
    perform answers.performs (
      start_due_retries answers.retry_now answers.retry_begins (
        apply_consumed pending.consume_requests
          (apply_cancellations pending.cancel_requests jobs))))

module _ (weight : ℕ → ℕ) where
  abbrev pub settled : Shared → ℕ
  settled shared = weigh weight shared.queue.events

  abbrev Conserved : Shared × List RestJob → Shared × List RestJob → Type 0
  Conserved before after =
      (after.0.queue.enabled ≡ true)
      × (settled after.0 + owed_by weight after.1 ≡ settled before.0 + owed_by weight before.1)

  post_all-counts :
      (queue : MainThreadQueue) (events : List TransferEvent)
      → queue.enabled ≡ true
      → ((post_all queue events).enabled ≡ true)
        × (weigh weight (post_all queue events).events
            ≡ weigh weight queue.events + weigh weight events)
  unfolding post_all post weigh
  post_all-counts queue [] on = (on, omega arith)
  post_all-counts queue (event ∷ events) on =
      ground
        (arith, post_all-counts (post queue event) events, weigh-append weight queue.events event)

  module _ (call : RestJob → RestJob)
      (balances : (job : RestJob) → Balanced weight job (call job)) where
    visit-Conserved :
        (shared : Shared) (job : RestJob)
        → shared.queue.enabled ≡ true
        → Conserved (shared, job ∷ []) ((visit call shared job).0, (visit call shared job).1 ∷ [])
    unfolding visit weigh
    visit-Conserved shared job on =
        let seen = record job { outbox = []; disk = shared.disk } in
        ground (arith, balances seen, post_all-counts shared.queue (call seen).outbox on)

    visit_first-Conserved :
        (test : RestJob → Bool) (shared : Shared) (jobs : List RestJob)
        → shared.queue.enabled ≡ true
        → Conserved (shared, jobs) (visit_first test call shared jobs)
    unfolding visit_first
    visit_first-Conserved test shared [] on = (on, refl)
    visit_first-Conserved test shared (job ∷ jobs) on = elim (Bool-cases (test job)) [
      | inl met ↦ rw (met) (ground (arith, visit-Conserved shared job on))
      | inr unmet ↦ rw (unmet) (ground (arith, visit_first-Conserved test shared jobs on))
    ]

    visit_all-Conserved :
        (test : RestJob → Bool) (shared : Shared) (jobs : List RestJob)
        → shared.queue.enabled ≡ true
        → Conserved (shared, jobs) (visit_all test call shared jobs)
    unfolding visit_all
    visit_all-Conserved test shared [] on = (on, refl)
    visit_all-Conserved test shared (job ∷ jobs) on = elim (Bool-cases (test job)) [
      | inl met ↦ rw (met) (
          let here = visit-Conserved shared job on in
          ground (arith, here, visit_all-Conserved test (visit call shared job).0 jobs here.0))
      | inr unmet ↦ rw (unmet) (ground (arith, visit_all-Conserved test shared jobs on))
    ]

  owed-append :
      (xs ys : List RestJob) → owed_by weight (xs ++ ys) ≡ owed_by weight xs + owed_by weight ys
  owed-append [] ys = omega arith
  owed-append (x ∷ xs) ys = ground (arith, owed-append xs ys)

  begins-balance : (begins : Begins) (job : RestJob) → Balanced weight job (begin_call begins job)
  begins-balance begins job = begin_attempt-balance weight (begins job) job

  admit-Conserved :
      (begins : Begins) (shared : Shared) (active incoming : List RestJob)
      → shared.queue.enabled ≡ true
      → Conserved (shared, active ++ incoming) (admit_incoming begins (shared, active) incoming)
  unfolding admit_incoming
  admit-Conserved begins shared active [] on = (on, rw (append-nil active) refl)
  admit-Conserved begins shared active (job ∷ incoming) on =
      let call = begin_call begins in
      let after = visit call shared job in
      let here = visit-Conserved call (begins-balance begins) shared job on in
      let later = admit-Conserved begins after.0 (active ++ after.1 ∷ []) incoming here.0 in
      (
        later.0,
        ground (
          arith,
          here.1,
          later.1,
          owed-append active (job ∷ incoming),
          owed-append (active ++ after.1 ∷ []) incoming,
          owed-append active (after.1 ∷ []),
        ),
      )

  Keeps : Part → Type 0
  Keeps part =
      (jobs : Shared × List RestJob) → jobs.0.queue.enabled ≡ true → Conserved jobs (part jobs)

  then_Keeps :
      (first second : Part) → Keeps first → Keeps second → Keeps (λ jobs. second (first jobs))
  unfolding Keeps
  then_Keeps first second keeps keeps' jobs on =
      let before = keeps jobs on in
      let after = keeps' (first jobs) before.0 in (after.0, after.1 ∙ before.1)

  none_Keeps : Keeps (λ jobs. jobs)
  unfolding Keeps
  none_Keeps jobs on = (on, refl)

  first_Keeps :
      (call : RestJob → RestJob) (test : RestJob → Bool)
      → ((job : RestJob) → Balanced weight job (call job))
      → Keeps (λ jobs. visit_first test call jobs.0 jobs.1)
  unfolding Keeps
  first_Keeps call test balances jobs on = visit_first-Conserved call balances test jobs.0 jobs.1 on

  cancellations-Keeps : (requests : List ℕ) → Keeps (apply_cancellations requests)
  unfolding apply_cancellations step
  cancellations-Keeps [] = none_Keeps
  cancellations-Keeps (job_id ∷ requests) =
      then_Keeps _ (apply_cancellations requests)
        (first_Keeps cancel (is_active job_id) (λ job. step-balance weight job cancels))
        (cancellations-Keeps requests)

  consumed-Keeps : (requests : List (ℕ × ℕ)) → Keeps (apply_consumed requests)
  unfolding apply_consumed step
  consumed-Keeps [] = none_Keeps
  consumed-Keeps ((job_id, count) ∷ requests) =
      then_Keeps _ (apply_consumed requests)
        (first_Keeps (consume_call count) (is_active job_id)
          (λ job. step-balance weight job (consumes count)))
        (consumed-Keeps requests)

  perform-Keeps : (calls : List (ℕ × Call)) → Keeps (perform calls)
  unfolding perform
  perform-Keeps [] = none_Keeps
  perform-Keeps ((job_id, call) ∷ calls) =
      then_Keeps _ (perform calls)
        (first_Keeps (λ job. step job call) (is_attached job_id)
          (λ job. step-balance weight job call))
        (perform-Keeps calls)

  reap-Keeps : (messages : List Message) → Keeps (reap_completed messages)
  unfolding reap_completed step
  reap-Keeps [] = none_Keeps
  reap-Keeps (other_message ∷ messages) = reap-Keeps messages
  reap-Keeps (done job_id answers result ∷ messages) =
      then_Keeps _ (reap_completed messages)
        (first_Keeps (on_attempt_done answers result) (is_attached job_id)
          (λ job. step-balance weight job (ends answers result)))
        (reap-Keeps messages)

  retries-Keeps : (now : ℕ) (begins : Begins) → Keeps (start_due_retries now begins)
  unfolding Keeps start_due_retries
  retries-Keeps now begins jobs on =
      visit_all-Conserved (begin_call begins) (begins-balance begins) (λ job. is_retry_due job now)
        jobs.0 jobs.1 on

  owed-remove_finished :
      (jobs : List RestJob) → owed_by weight (remove_finished jobs) ≡ owed_by weight jobs
  unfolding remove_finished
  owed-remove_finished [] = refl
  owed-remove_finished (job ∷ jobs) = ground (arith, owed-remove_finished jobs)

  rest_of_round-Keeps :
      (answers : RoundAnswers) (pending : Pending) → Keeps (rest_of_round answers pending)
  rest_of_round-Keeps answers pending =
      let consumed =
        then_Keeps _ _ (cancellations-Keeps pending.cancel_requests)
          (consumed-Keeps pending.consume_requests) in
      let retried =
        then_Keeps _ _ consumed (retries-Keeps answers.retry_now answers.retry_begins) in
      let performed = then_Keeps _ _ retried (perform-Keeps answers.performs) in
      then_Keeps _ _ performed (reap-Keeps answers.messages)

  -- A round keeps the weight of the completion events in the queue and of the unfinished jobs.
  pub round_weighs :
      (answers : RoundAnswers) (thread : TransferThread)
      → thread.shared.queue.enabled ≡ true
      → let after = (round answers thread).0 in
        (after.shared.queue.enabled ≡ true)
        × (weigh weight after.shared.queue.events + owed_by weight (after.active ++ after.incoming)
            ≡ weigh weight thread.shared.queue.events
              + owed_by weight (thread.active ++ thread.incoming))
  unfolding round round_jobs take_pending Keeps
  round_weighs answers thread on =
      let pending = (take_pending thread).1 in
      let admitted = admit_incoming answers.begins (thread.shared, thread.active) thread.incoming in
      let here = admit-Conserved answers.begins thread.shared thread.active thread.incoming on in
      let later = rest_of_round-Keeps answers pending admitted here.0 in
      let jobs = rest_of_round answers pending admitted in
      (
        later.0,
        ground (
          arith,
          here.1,
          later.1,
          owed-remove_finished jobs.1,
          owed-append (remove_finished jobs.1) [],
        ),
      )

  pub owed_one :
      (xs ys : List RestJob) (job : RestJob)
      → job.finished ≡ false
      → owed_by weight (xs ++ (ys ++ job ∷ [])) ≡ owed_by weight (xs ++ ys) + weight job.spec.id
  owed_one xs ys job unfinished =
      ground (arith, owed-append xs (ys ++ job ∷ []), owed-append ys (job ∷ []), owed-append xs ys)

-- While the queue is enabled, a round of the thread keeps the sum of the completion events in the
-- queue and the unfinished jobs, new or active: it drops no job without its completion, and posts
-- no completion without ending a job.
pub round_accounts :
    (answers : RoundAnswers) (thread : TransferThread)
    → thread.shared.queue.enabled ≡ true
    → let after = (round answers thread).0 in
      completions after.shared.queue.events + owed (after.active ++ after.incoming)
      ≡ completions thread.shared.queue.events + owed (thread.active ++ thread.incoming)
round_accounts answers thread on = (round_weighs (λ job_id. 1) answers thread on).1
