-- ===== src/Job/Phases.antt =====
-- The life of a job under the rules that the transfer thread and curl keep: running with curl,
-- waiting for a retry, or finished.
use sm_rest.Prelude.{
  ℕ, ◌+◌, ◌≡◌, ◌∙◌, ◌⊎◌, true, false, not, ◌&&◌, ◌||◌, [], arith, Bytes, bytes, ltb, leb,
}
use sm_rest.Prelude.Int.{pos_part}
use sm_rest.Queue.{RestStatus}
use sm_rest.Request.{RequestSpec}
use sm_rest.Job.State.{RestJob, Disk, new_job}
use sm_rest.Job.Finish.{finish}
use sm_rest.Job.Files.{close_files}
use sm_rest.Job.Receive.{on_header_line, write_callback, flush_stream, on_stream_consumed}
use sm_rest.Job.Upload.{read_callback, seek_callback}
use sm_rest.Job.Progress.{progress_callback}
use sm_rest.Job.Retry.{RetryAnswers, schedule_retry, can_retry}
use sm_rest.Job.Attempt.{
  BeginAnswers, TransferResult, DoneAnswers, begin_attempt, reset_attempt_state, on_attempt_done,
  cancel, capture_attempt_info, release_curl,
}
use sm_rest.Job.Cases.{has_handle, begin_attempt_cases, ended_state, on_attempt_done_cases}
use sm_rest.Job.History.{
  Call, begins, header_line, body_chunk, progresses, reports, reads, seeks, consumes, ends, cancels,
  step,
}
use sm_rest.Job.Keeping.{
  Keeps, header_line-Keeps, write_callback-Keeps, progress_callback-Keeps, consumed-Keeps,
  flush_stream-Keeps, read_callback-Keeps, seek_callback-Keeps,
}

-- How often an attempt may begin: once, and once more for each retry that is allowed.
abbrev pub attempt_limit : RestJob → ℕ
attempt_limit job = 1 + pos_part job.spec.config.max_retries

-- A job that has begun and is not finished is either with curl or waits for a retry, and not both.
-- A finished job does neither. A job with curl has a handle. Attempts stay within the limit, and
-- below it while the job waits for one more.
pub record IsSound (job : RestJob) : Type 0 where
  pub done : (job.finished && (job.attached || job.waiting_for_retry)) ≡ false
  pub apart : (job.attached && job.waiting_for_retry) ≡ false
  pub held : (job.attached && not (has_handle job)) ≡ false
  pub busy :
      (not job.finished && (ltb 0 job.attempt && not (job.attached || job.waiting_for_retry)))
      ≡ false
  pub counted : ((job.attached || job.waiting_for_retry) && leb job.attempt 0) ≡ false
  pub spare : (job.waiting_for_retry && leb (attempt_limit job) job.attempt) ≡ false
  pub limited : leb job.attempt (attempt_limit job) ≡ true

-- The transfer thread begins a new job, and one whose retry is due; curl calls back for a job that
-- it has; and `FindActive` passes over finished jobs.
abbrev pub Allowed : RestJob → Call → Type 0
Allowed job (begins answers) =
    (job.finished ≡ false)
    × (job.attached ≡ false)
    × ((job.attempt ≡ 0) ⊎ (job.waiting_for_retry ≡ true))
Allowed job (header_line status line) = job.attached ≡ true
Allowed job (body_chunk answers status chunk) = job.attached ≡ true
Allowed job (progresses now counts) = job.attached ≡ true
Allowed job (reports text) = job.attached ≡ true
Allowed job (reads available size) = job.attached ≡ true
Allowed job (seeks seekable offset origin) = job.attached ≡ true
Allowed job (consumes count) = job.finished ≡ false
Allowed job (ends answers result) = job.attached ≡ true
Allowed job cancels = job.finished ≡ false

-- The states that such calls lead to.
pub data Reach (start : RestJob) : RestJob → Type 0 where
  here : Reach start start
  next :
      {job : RestJob}
      → Reach start job
      → (call : Call) → Allowed job call
      → Reach start (step job call)

Keeps-IsSound : (before after : RestJob) → Keeps before after → IsSound before → IsSound after
Keeps-IsSound before after k s = ground arith

-- Finishing a job that curl does not have.
finish-IsSound :
    (job : RestJob) (status : RestStatus) (error : Bytes)
    → job.attached ≡ false
    → job.finished ≡ false
    → leb job.attempt (attempt_limit job) ≡ true
    → IsSound (finish job status error)
unfolding finish
finish-IsSound job status error a f l = ground arith

begin_attempt-IsSound :
    (answers : BeginAnswers) (job : RestJob)
    → Allowed job (begins answers)
    → IsSound job
    → IsSound (begin_attempt answers job).0
unfolding reset_attempt_state
begin_attempt-IsSound answers job a s =
    begin_attempt_cases (λ r. IsSound r.0) answers job
      (λ after status error p.
        finish-IsSound after status error (ground arith) (ground arith) (ground arith))
      (λ after p c e. ground arith)

-- A job between the end of an attempt and the decision what comes of it.
abbrev IsJudged : RestJob → Type 0
IsJudged job =
    (job.attached ≡ false)
    × (job.finished ≡ false)
    × (job.waiting_for_retry ≡ false)
    × (leb job.attempt (attempt_limit job) ≡ true)
    × (ltb 0 job.attempt ≡ true)

ended_state-IsJudged :
    (result : TransferResult) (job : RestJob)
    → job.attached ≡ true
    → IsSound job
    → IsJudged (ended_state result job)
unfolding release_curl close_files capture_attempt_info
ended_state-IsJudged result job a s = ground arith

judged-IsSound :
    (job : RestJob) (disk : Disk) (status : RestStatus) (error : Bytes)
    → IsJudged job
    → IsSound (finish (record job { disk = disk }) status error)
judged-IsSound job disk status error j =
    finish-IsSound (record job { disk = disk }) status error j.0 j.1 j.3

flushed-IsSound :
    (job : RestJob) (status : RestStatus) (error : Bytes)
    → IsJudged job
    → IsSound (finish (flush_stream job) status error)
flushed-IsSound job status error j =
    let k = flush_stream-Keeps job in
    finish-IsSound (flush_stream job) status error (k.1 ∙ j.0) (k.0 ∙ j.1) (ground arith)

retried-IsSound :
    (answers : RetryAnswers) (job : RestJob)
    → IsJudged job
    → can_retry job ≡ true
    → IsSound (schedule_retry answers job)
unfolding schedule_retry can_retry
retried-IsSound answers job j r = ground arith

on_attempt_done-IsSound :
    (answers : DoneAnswers) (result : TransferResult) (job : RestJob)
    → job.attached ≡ true
    → IsSound job
    → IsSound (on_attempt_done answers result job)
on_attempt_done-IsSound answers result job a s =
    let j = ended_state-IsJudged result job a s in
    on_attempt_done_cases IsSound answers result job
      (λ disk status error. judged-IsSound (ended_state result job) disk status error j)
      (flushed-IsSound (ended_state result job) RestStatus.ok [] j)
      (retried-IsSound answers.retry (ended_state result job) j)

cancel-IsSound : (job : RestJob) → job.finished ≡ false → IsSound job → IsSound (cancel job)
unfolding cancel release_curl close_files
cancel-IsSound job f s =
    finish-IsSound (release_curl (close_files (record job { cancel_requested = true })))
      RestStatus.cancelled (bytes "cancelled") (ground arith) (ground arith) (ground arith)

pub step-IsSound :
    (job : RestJob) (call : Call) → Allowed job call → IsSound job → IsSound (step job call)
unfolding step
step-IsSound job (begins answers) a s = begin_attempt-IsSound answers job a s
step-IsSound job (header_line status line) a s =
    Keeps-IsSound job (on_header_line status job line) (header_line-Keeps status job line) s
step-IsSound job (body_chunk answers status chunk) a s =
    Keeps-IsSound job (write_callback answers status job chunk).0
      (write_callback-Keeps answers status job chunk) s
step-IsSound job (progresses now counts) a s =
    Keeps-IsSound job (progress_callback now job counts).0 (progress_callback-Keeps now job counts)
      s
step-IsSound job (reports text) a s = ground arith
step-IsSound job (reads available size) a s =
    Keeps-IsSound job (read_callback available job size).0 (read_callback-Keeps available job size)
      s
step-IsSound job (seeks seekable offset origin) a s =
    Keeps-IsSound job (seek_callback seekable job offset origin).0
      (seek_callback-Keeps seekable job offset origin) s
step-IsSound job (consumes count) a s =
    Keeps-IsSound job (on_stream_consumed job count).0 (consumed-Keeps job count) s
step-IsSound job (ends answers result) a s = on_attempt_done-IsSound answers result job a s
step-IsSound job cancels a s = cancel-IsSound job a s

-- In every state that a new job reaches by allowed calls, the job that has begun is with curl, waits
-- for a retry or is finished, only one of these, and never makes more than one attempt and
-- `maxRetries` retries (one attempt if that is negative).
pub Reach-IsSound :
    (disk : Disk) (spec : RequestSpec) {job : RestJob} → Reach (new_job disk spec) job → IsSound job
unfolding new_job
Reach-IsSound disk spec here = ground arith
Reach-IsSound disk spec (next r call a) = step-IsSound _ call a (Reach-IsSound disk spec r)
