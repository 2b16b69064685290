-- ===== src/Thread.antt =====
-- src/transfer_thread.h and src/transfer_thread.cpp: the thread that runs the jobs, and the requests
-- that the game thread leaves for it. The mutex makes each hand-over one step.
pub mod Wait
pub mod Cancelling
pub mod Accounting
use sm_rest.Prelude.{
  ℕ, ◌-◌, min, Bool, true, false, not, ◌&&◌, List, [], ◌∷◌, ◌++◌, Option, none, some, if◌then◌else◌,
  ◌==◌,
}
use sm_rest.Prelude.Int.{pos_part}
use sm_rest.Queue.{MainThreadQueue, post_all}
use sm_rest.Job.State.{RestJob, Disk}
use sm_rest.Job.Receive.{on_stream_consumed}
use sm_rest.Job.Retry.{is_retry_due}
use sm_rest.Job.Attempt.{
  BeginAnswers, DoneAnswers, TransferResult, begin_attempt, on_attempt_done, cancel,
}
use sm_rest.Job.History.{Call, step}

abbrev pub max_wait_ms : ℕ
max_wait_ms = 1000

-- What the jobs share: the queue that they post to, and the files.
pub record Shared : Type 0 where
  pub queue : MainThreadQueue
  pub disk : Disk

pub record TransferThread : Type 0 where
  pub shared : Shared
  pub has_multi : Bool
  pub running : Bool
  pub incoming : List RestJob
  pub cancel_requests : List ℕ
  pub consume_requests : List (ℕ × ℕ)
  pub active : List RestJob

abbrev pub id_of : RestJob → ℕ
id_of job = job.spec.id

-- One call on one job: it sees the files as they are, and what it posts goes into the queue.
unfoldable pub visit : (RestJob → RestJob) → Shared → RestJob → Shared × RestJob
visit call shared job =
    let after = call (record job { outbox = []; disk = shared.disk }) in
    (
      record { queue = post_all shared.queue after.outbox; disk = after.disk },
      record after { outbox = [] },
    )

-- The call on the first job that passes the test, if there is one.
unfoldable pub visit_first :
    (RestJob → Bool) → (RestJob → RestJob) → Shared → List RestJob → Shared × List RestJob
unfolding visit
visit_first test call shared [] = (shared, [])
visit_first test call shared (job ∷ jobs) =
    let here = visit call shared job in
    let later = visit_first test call shared jobs in
    if test job then (here.0, here.1 ∷ jobs) else (later.0, job ∷ later.1)

-- The call on every job that passes the test, in turn.
unfoldable pub visit_all :
    (RestJob → Bool) → (RestJob → RestJob) → Shared → List RestJob → Shared × List RestJob
unfolding visit
visit_all test call shared [] = (shared, [])
visit_all test call shared (job ∷ jobs) =
    let here = if test job then visit call shared job else (shared, job) in
    let later = visit_all test call here.0 jobs in (later.0, here.1 ∷ later.1)

unfoldable pub start : Bool → TransferThread → TransferThread × Bool
start multi_init thread =
    if not multi_init
    then (record thread { has_multi = false }, false)
    else (record thread { has_multi = true; running = true }, true)

unfoldable pub enqueue : TransferThread → RestJob → TransferThread
enqueue thread job = record thread { incoming = thread.incoming ++ job ∷ [] }

unfoldable pub request_cancel : TransferThread → ℕ → TransferThread
request_cancel thread job_id = record thread {
  cancel_requests = thread.cancel_requests ++ job_id ∷ [];
}

unfoldable pub request_consume : TransferThread → ℕ → ℕ → TransferThread
request_consume thread job_id count = record thread {
  consume_requests = thread.consume_requests ++ (job_id, count) ∷ [];
}

-- What `TakePending` swaps out for this round.
pub record Pending : Type 0 where
  pub incoming : List RestJob
  pub cancel_requests : List ℕ
  pub consume_requests : List (ℕ × ℕ)

unfoldable pub take_pending : TransferThread → TransferThread × Pending
take_pending thread = (
  record thread { incoming = []; cancel_requests = []; consume_requests = [] },
  record {
    incoming = thread.incoming;
    cancel_requests = thread.cancel_requests;
    consume_requests = thread.consume_requests;
  },
)

-- The answers that the system gives, a job's begin at a time.
abbrev pub Begins : Type 0
Begins = RestJob → BeginAnswers

abbrev pub begin_call : Begins → RestJob → RestJob
begin_call begins job = (begin_attempt (begins job) job).0

-- Every new job begins, and joins the active ones whatever comes of it.
unfoldable pub admit_incoming :
    Begins → Shared × List RestJob → List RestJob → Shared × List RestJob
unfolding visit
admit_incoming begins (shared, active) [] = (shared, active)
admit_incoming begins (shared, active) (job ∷ incoming) =
    let here = visit (begin_call begins) shared job in
    admit_incoming begins (here.0, active ++ here.1 ∷ []) incoming

-- `FindActive`: the first job of that id that is not finished.
abbrev pub is_active : ℕ → RestJob → Bool
is_active job_id job = id_of job == job_id && not job.finished

unfoldable pub find_active : ℕ → List RestJob → Option RestJob
find_active job_id [] = none
find_active job_id (job ∷ jobs) = if is_active job_id job then some job else find_active job_id jobs

unfoldable pub apply_cancellations : List ℕ → Shared × List RestJob → Shared × List RestJob
unfolding visit_first
apply_cancellations [] jobs = jobs
apply_cancellations (job_id ∷ requests) (shared, active) =
    apply_cancellations requests (visit_first (is_active job_id) cancel shared active)

abbrev pub consume_call : ℕ → RestJob → RestJob
consume_call count job = (on_stream_consumed job count).0

unfoldable pub apply_consumed : List (ℕ × ℕ) → Shared × List RestJob → Shared × List RestJob
unfolding visit_first
apply_consumed [] jobs = jobs
apply_consumed ((job_id, count) ∷ requests) (shared, active) =
    apply_consumed requests (visit_first (is_active job_id) (consume_call count) shared active)

unfoldable pub start_due_retries : ℕ → Begins → Shared × List RestJob → Shared × List RestJob
unfolding visit_all
start_due_retries now begins (shared, active) =
    visit_all (λ job. is_retry_due job now) (begin_call begins) shared active

-- A job that curl has, by the id that it carries.
abbrev pub is_attached : ℕ → RestJob → Bool
is_attached job_id job = id_of job == job_id && job.attached

-- `curl_multi_perform` calls back for jobs that curl has; which, and with what, is curl's choice.
unfoldable pub perform : List (ℕ × Call) → Shared × List RestJob → Shared × List RestJob
unfolding visit_first
perform [] jobs = jobs
perform ((job_id, call) ∷ calls) (shared, active) =
    perform calls (visit_first (is_attached job_id) (λ job. step job call) shared active)

-- A message of curl: a transfer that is done, by its job, or one of another kind.
pub data Message : Type 0 where
  done : ℕ → DoneAnswers → TransferResult → Message
  other_message : Message

unfoldable pub reap_completed : List Message → Shared × List RestJob → Shared × List RestJob
unfolding visit_first
reap_completed [] jobs = jobs
reap_completed (other_message ∷ messages) jobs = reap_completed messages jobs
reap_completed (done job_id answers result ∷ messages) (shared, active) =
    reap_completed messages
      (visit_first (is_attached job_id) (on_attempt_done answers result) shared active)

unfoldable pub remove_finished : List RestJob → List RestJob
remove_finished [] = []
remove_finished (job ∷ jobs) =
    let rest = remove_finished jobs in if job.finished then rest else job ∷ rest

-- `std::max(0L, remaining)`: no time is left where the retry is due.
abbrev pub remaining_ms : ℕ → RestJob → ℕ
remaining_ms now job = pos_part job.retry_at - now

wait_from : ℕ → ℕ → List RestJob → ℕ
wait_from now wait [] = wait
wait_from now wait (job ∷ jobs) =
    wait_from now (if not job.waiting_for_retry then wait else min wait (remaining_ms now job)) jobs

unfoldable pub compute_wait_ms : ℕ → List RestJob → ℕ
unfolding wait_from
compute_wait_ms now active = wait_from now max_wait_ms active

-- What curl and the system do in one round of `Run`.
pub record RoundAnswers : Type 0 where
  pub begins : Begins
  pub retry_now : ℕ
  pub retry_begins : Begins
  pub performs : List (ℕ × Call)
  pub messages : List Message
  pub wait_now : ℕ

unfoldable pub round_jobs : RoundAnswers → Pending → Shared × List RestJob → Shared × List RestJob
round_jobs answers pending jobs = reap_completed answers.messages (
    perform answers.performs (
      start_due_retries answers.retry_now answers.retry_begins (
        apply_consumed pending.consume_requests (
          apply_cancellations pending.cancel_requests
            (admit_incoming answers.begins jobs pending.incoming)))))

-- One round of the loop in `Run`: the second part is how long curl may then wait.
unfoldable pub round : RoundAnswers → TransferThread → TransferThread × ℕ
unfolding round_jobs take_pending
round answers thread =
    let (emptied, pending) = take_pending thread in
    let jobs = round_jobs answers pending (emptied.shared, emptied.active) in
    let active = remove_finished jobs.1 in
    (record emptied { shared = jobs.0; active = active }, compute_wait_ms answers.wait_now active)

-- The thread has ended its round; every job that is left is cancelled, and those that never began
-- are dropped.
unfoldable pub stop : TransferThread → TransferThread
unfolding visit_all
stop thread =
    if not thread.running
    then thread
    else let jobs = visit_all (λ _. true) cancel thread.shared thread.active in
      record thread {
        shared = jobs.0;
        has_multi = false;
        running = false;
        incoming = [];
        active = [];
      }
