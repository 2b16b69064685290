-- ===== src/Job/Turns.antt =====
-- How long a job can go on: each attempt begins once and ends once, and there are only so many.
use sm_rest.Prelude.{
  ℕ, ◌+◌, ◌-◌, ◌*◌, ◌≤◌, ◌<◌, ◌≡◌, ◌⊎◌, inl, inr, refl, [], true, false, Bool-cases, arith, Bytes,
  bytes, if◌then◌else◌,
}
use sm_rest.Queue.{RestStatus}
use sm_rest.Request.{RequestSpec}
use sm_rest.Job.State.{RestJob, Disk, new_job}
use sm_rest.Job.Finish.{finish}
use sm_rest.Job.Files.{close_files}
use sm_rest.Job.Receive.{on_header_line, write_callback, on_stream_consumed, flush_stream}
use sm_rest.Job.Upload.{read_callback, seek_callback}
use sm_rest.Job.Progress.{progress_callback}
use sm_rest.Job.Retry.{RetryAnswers, schedule_retry}
use sm_rest.Job.Attempt.{
  BeginAnswers, TransferResult, DoneAnswers, begin_attempt, reset_attempt_state, on_attempt_done,
  cancel, capture_attempt_info, release_curl,
}
use sm_rest.Job.Cases.{begin_attempt_cases, Prepares, begun, ended_state, on_attempt_done_cases}
use sm_rest.Job.History.{
  Call, begins, header_line, body_chunk, progresses, reports, reads, seeks, consumes, ends, cancels,
  step,
}
use sm_rest.Job.Phases.{attempt_limit, IsSound, Allowed, Reach, here, next, Reach-IsSound}
use sm_rest.Job.Keeping.{
  Keeps, header_line-Keeps, write_callback-Keeps, progress_callback-Keeps, consumed-Keeps,
  read_callback-Keeps, seek_callback-Keeps,
}

-- The begins and ends of attempts among calls.
abbrev pub turn : Call → ℕ
turn (begins answers) = 1
turn (ends answers result) = 1
turn _ = 0

abbrev pub turns : {start job : RestJob} → Reach start job → ℕ
turns here = 0
turns (next r call allowed) = turns r + turn call

-- How many begins and ends are still to come at most.
abbrev rank : RestJob → ℕ
rank job =
    if job.finished
    then 0
    else 2 * (attempt_limit job - job.attempt) + (if job.attached then 1 else 0)

finish-rank :
    (job : RestJob) (status : RestStatus) (error : Bytes) → rank (finish job status error) ≡ 0
unfolding finish
finish-rank job status error = ground arith

Keeps-rank : (before after : RestJob) → Keeps before after → rank after ≡ rank before
Keeps-rank before after k = ground arith

idle-rank :
    (answers : BeginAnswers) (job : RestJob)
    → Allowed job (begins answers)
    → IsSound job
    → (rank job ≡ 2 * (attempt_limit job - job.attempt)) × (job.attempt < attempt_limit job)
idle-rank answers job allowed sound = ground arith

busy-rank :
    (job : RestJob)
    → job.attached ≡ true
    → IsSound job
    → rank job ≡ 2 * (attempt_limit job - job.attempt) + 1
busy-rank job attached sound = ground arith

-- What is left of an attempt that has ended counts for its retries only.
ended_state-rank :
    (result : TransferResult) (job : RestJob)
    → job.attached ≡ true
    → IsSound job
    → rank (ended_state result job) ≡ 2 * (attempt_limit job - job.attempt)
unfolding release_curl close_files capture_attempt_info
ended_state-rank result job attached sound = ground arith

begun-rank :
    (job after : RestJob)
    → Prepares (begun job) after
    → job.attached ≡ false
    → job.finished ≡ false
    → job.attempt < attempt_limit job
    → 1 + rank (record after { attached = true }) ≤ 2 * (attempt_limit job - job.attempt)
unfolding reset_attempt_state
begun-rank job after p attached finished spare = ground arith

begin_attempt-rank :
    (answers : BeginAnswers) (job : RestJob)
    → Allowed job (begins answers)
    → IsSound job
    → 1 + rank (begin_attempt answers job).0 ≤ rank job
unfolding reset_attempt_state
begin_attempt-rank answers job allowed sound =
    begin_attempt_cases (λ r. 1 + rank r.0 ≤ rank job) answers job
      (λ after status error p.
        let idle = idle-rank answers job allowed sound in
        omega (arith, finish-rank after status error, idle.0, idle.1))
      (λ after p c e.
        let idle = idle-rank answers job allowed sound in
        omega (arith, begun-rank job after p allowed.1 allowed.0 idle.1, idle.0))

schedule_retry-rank :
    (answers : RetryAnswers) (job : RestJob) → rank (schedule_retry answers job) ≡ rank job
unfolding schedule_retry
schedule_retry-rank answers job = refl

on_attempt_done-rank :
    (answers : DoneAnswers) (result : TransferResult) (job : RestJob)
    → job.attached ≡ true
    → IsSound job
    → 1 + rank (on_attempt_done answers result job) ≤ rank job
unfolding release_curl close_files capture_attempt_info
on_attempt_done-rank answers result job attached sound =
    on_attempt_done_cases (λ after. 1 + rank after ≤ rank job) answers result job
      (λ disk status error. omega (
        arith,
        finish-rank (record (ended_state result job) { disk = disk }) status error,
        busy-rank job attached sound,
      ))
      (omega (
        arith,
        finish-rank (flush_stream (ended_state result job)) RestStatus.ok [],
        busy-rank job attached sound,
      ))
      (λ retry. omega (
        arith,
        schedule_retry-rank answers.retry (ended_state result job),
        ended_state-rank result job attached sound,
        busy-rank job attached sound,
      ))

cancel-rank : (job : RestJob) → rank (cancel job) ≡ 0
unfolding cancel
cancel-rank job =
    finish-rank (release_curl (close_files (record job { cancel_requested = true })))
      RestStatus.cancelled (bytes "cancelled")

step-rank :
    (job : RestJob) (call : Call)
    → Allowed job call
    → IsSound job
    → turn call + rank (step job call) ≤ rank job
unfolding step
step-rank job (begins answers) allowed sound = begin_attempt-rank answers job allowed sound
step-rank job (header_line status line) allowed sound =
    omega
      (arith, Keeps-rank job (on_header_line status job line) (header_line-Keeps status job line))
step-rank job (body_chunk answers status chunk) allowed sound = omega (
  arith,
  Keeps-rank job (write_callback answers status job chunk).0
      (write_callback-Keeps answers status job chunk),
)
step-rank job (progresses now counts) allowed sound = omega (
  arith,
  Keeps-rank job (progress_callback now job counts).0 (progress_callback-Keeps now job counts),
)
step-rank job (reports text) allowed sound = omega arith
step-rank job (reads available size) allowed sound = omega (
  arith,
  Keeps-rank job (read_callback available job size).0 (read_callback-Keeps available job size),
)
step-rank job (seeks seekable offset origin) allowed sound = omega (
  arith,
  Keeps-rank job (seek_callback seekable job offset origin).0
      (seek_callback-Keeps seekable job offset origin),
)
step-rank job (consumes count) allowed sound =
    omega (arith, Keeps-rank job (on_stream_consumed job count).0 (consumed-Keeps job count))
step-rank job (ends answers result) allowed sound =
    on_attempt_done-rank answers result job allowed sound
step-rank job cancels allowed sound = omega (arith, cancel-rank job)

turns-rank :
    (disk : Disk) (spec : RequestSpec) {job : RestJob} (r : Reach (new_job disk spec) job)
    → turns r + rank job ≤ rank (new_job disk spec)
turns-rank disk spec here = omega arith
turns-rank disk spec (next {job} r call allowed) =
    omega (arith, turns-rank disk spec r, step-rank job call allowed (Reach-IsSound disk spec r))

-- The rules let an attempt begin, or let the running one end, whatever the answers.
abbrev pub MayBegin : RestJob → Type 0
MayBegin job = (answers : BeginAnswers) → Allowed job (begins answers)

abbrev pub MayEnd : RestJob → Type 0
MayEnd job = (answers : DoneAnswers) (result : TransferResult) → Allowed job (ends answers result)

sound_turn : (job : RestJob) → IsSound job → job.finished ≡ false → MayBegin job ⊎ MayEnd job
sound_turn job sound unfinished = elim (Bool-cases job.attached) [
  | inl attached ↦ inr (λ answers result. attached)
  | inr free ↦ inl (λ answers. (unfinished, free, idle free (Bool-cases job.waiting_for_retry)))
]
  where
    idle :
        job.attached ≡ false
        → (job.waiting_for_retry ≡ true) ⊎ (job.waiting_for_retry ≡ false)
        → (job.attempt ≡ 0) ⊎ (job.waiting_for_retry ≡ true)
    idle free (inl waiting) = inr waiting
    idle free (inr still) = inl (ground arith)

unfinished-rank : (job : RestJob) → IsSound job → job.finished ≡ false → 0 < rank job
unfinished-rank job sound unfinished = ground arith

-- Whichever of the calls that the thread and curl may make are made on a new job: as long as it is
-- unfinished its next attempt may begin or its running one may end, and less than one begin and one end
-- for each attempt that is allowed, the first and `maxRetries` retries, have happened. So it cannot
-- go on for ever.
pub unfinished_goes_on :
    (disk : Disk) (spec : RequestSpec) {job : RestJob} (r : Reach (new_job disk spec) job)
    → job.finished ≡ false
    → (turns r < 2 * attempt_limit (new_job disk spec)) × (MayBegin job ⊎ MayEnd job)
unfolding new_job
unfinished_goes_on disk spec {job} r unfinished =
    let sound = Reach-IsSound disk spec r in
    (
      omega (arith, turns-rank disk spec r, unfinished-rank job sound unfinished),
      sound_turn job sound unfinished,
    )
