-- ===== src/Tests/Threads.antt =====
-- The transfer thread at concrete inputs.
use sm_rest.Prelude.{ℕ, ◌+◌, ◌≤◌, ◌≡◌, refl, inl, inr, true, List, [], ◌∷◌, ◌++◌, none}
use sm_rest.Prelude.Int.{pos}
use sm_rest.Request.{default_spec}
use sm_rest.Queue.{empty_queue}
use sm_rest.Job.State.{RestJob, new_job}
use sm_rest.Job.Attempt.{CurlCode}
use sm_rest.Job.Completion.{completions}
use sm_rest.Thread.{
  Shared, TransferThread, RoundAnswers, done, max_wait_ms, find_active, apply_cancellations,
  compute_wait_ms, round, enqueue, request_cancel,
}
use sm_rest.Thread.Wait.{EndsBy, compute_wait_ms-EndsBy}
use sm_rest.Thread.Cancelling.{apply_cancellations-ends}
use sm_rest.Thread.Accounting.{owed, round_accounts}
use sm_rest.Tests.Jobs.{no_files, begin_answers, done_answers, result_of}

abbrev job_of : ℕ → RestJob
job_of job_id = new_job no_files (record default_spec { id = job_id })

abbrev shared : Shared
shared = record { queue = empty_queue; disk = no_files }

abbrev pub idle : TransferThread
idle = record {
  shared = shared;
  has_multi = true;
  running = true;
  incoming = [];
  cancel_requests = [];
  consume_requests = [];
  active = [];
}

abbrev busy : TransferThread
busy = request_cancel (enqueue (enqueue idle (job_of 1)) (job_of 2)) 2

-- The first job is done in the round in which it begins, and the second is cancelled.
abbrev pub answers : RoundAnswers
answers = record {
  begins = λ _. begin_answers;
  retry_now = 5;
  retry_begins = λ _. begin_answers;
  performs = [];
  messages = done 1 done_answers (result_of CurlCode.ok 200) ∷ [];
  wait_now = 9;
}

round_accounts_example :
    let after = (round answers busy).0 in
    completions after.shared.queue.events + owed (after.active ++ after.incoming)
    ≡ completions busy.shared.queue.events + owed (busy.active ++ busy.incoming)
unfolding enqueue request_cancel
round_accounts_example = round_accounts answers busy refl

apply_cancellations-ends_example :
    find_active 2 (apply_cancellations (1 ∷ 2 ∷ []) (shared, job_of 1 ∷ job_of 2 ∷ [])).1 ≡ none
unfolding new_job
apply_cancellations-ends_example =
    apply_cancellations-ends 2 (1 ∷ 2 ∷ []) shared (job_of 1 ∷ job_of 2 ∷ []) ((refl, tt), (tt, tt))
      (inr (inl refl))

abbrev waiting : List RestJob
waiting = record (job_of 1) { waiting_for_retry = true; retry_at = pos 300 } ∷ []

compute_wait_ms-EndsBy_example :
    (compute_wait_ms 100 waiting ≤ max_wait_ms) × EndsBy 100 (compute_wait_ms 100 waiting) waiting
compute_wait_ms-EndsBy_example = compute_wait_ms-EndsBy 100 waiting
