-- ===== src/Job/Delivery/Whole.antt =====
-- The steps of a job that streams, and what the plugin has at the end.
use sm_rest.Prelude.{
  ◌≡◌, refl, sym, ap, ◌∙◌, true, false, ◌||◌, [], ◌++◌, append-nil, arith, Bytes, bytes, is_empty,
  leb,
}
use sm_rest.Queue.{RestStatus}
use sm_rest.Request.{RequestSpec}
use sm_rest.Job.State.{RestJob, Disk, new_job}
use sm_rest.Job.Finish.{finish}
use sm_rest.Job.Files.{close_files}
use sm_rest.Job.Receive.{is_success, on_header_line, flush_stream, on_stream_consumed}
use sm_rest.Job.Upload.{read_callback, seek_callback}
use sm_rest.Job.Progress.{progress_callback}
use sm_rest.Job.Retry.{RetryAnswers, schedule_retry, can_retry}
use sm_rest.Job.Attempt.{
  BeginAnswers, TransferResult, DoneAnswers, CurlCode, begin_attempt, reset_attempt_state,
  on_attempt_done, cancel, capture_attempt_info, release_curl, handle_http_success,
}
use sm_rest.Job.Cases.{Prepares, begun, begin_attempt_cases, ended_state, on_attempt_done_cases}
use sm_rest.Job.Success.{on_attempt_done_success}
use sm_rest.Job.History.{
  Call, begins, header_line, body_chunk, progresses, reports, reads, seeks, consumes, ends, cancels,
  step,
}
use sm_rest.Job.Phases.{IsSound, Allowed, Reach-IsSound}
use sm_rest.Job.Streaming.{streamed, in_stream, taken}
use sm_rest.Job.Delivery.{
  Trace, here, next, Trace-Reach, IsDelivered, Quiet, Quiet-IsDelivered, length-eq-zero,
  append-eq-nil, header_line-Quiet, progress_callback-Quiet, read_callback-Quiet,
  seek_callback-Quiet, consumed-Quiet, finish-IsDelivered, flush_stream-IsDelivered,
  body_chunk-IsDelivered,
}

released-Quiet :
    (job : RestJob)
    → Quiet job (release_curl (close_files (record job { cancel_requested = true })))
unfolding release_curl close_files
released-Quiet job = ground arith

-- What an attempt leaves when it ends.
ended_state-Quiet : (result : TransferResult) (job : RestJob) → Quiet job (ended_state result job)
unfolding release_curl close_files capture_attempt_info
ended_state-Quiet result job = ground arith

-- A retry is scheduled for a job that has received nothing.
schedule_retry-IsDelivered :
    (answers : RetryAnswers) (job : RestJob) (got : Bytes)
    → can_retry job ≡ true
    → IsDelivered job got
    → IsDelivered (schedule_retry answers job) got
unfolding schedule_retry can_retry
schedule_retry-IsDelivered answers job got r d = record {
  exact = d.exact;
  counted = d.counted;
  streams = d.streams;
  clean = ground arith;
}

on_attempt_done-IsDelivered :
    (answers : DoneAnswers) (result : TransferResult) (job : RestJob) (got : Bytes)
    → IsDelivered job got
    → IsDelivered (on_attempt_done answers result job) got
on_attempt_done-IsDelivered answers result job got d =
    on_attempt_done_cases (λ j. IsDelivered j got) answers result job
      (λ disk status error.
        finish-IsDelivered (record (ended_state result job) { disk = disk }) got status error
          (record { exact = e.exact; counted = e.counted; streams = e.streams; clean = e.clean }))
      (finish-IsDelivered (flush_stream (ended_state result job)) got RestStatus.ok []
        (flush_stream-IsDelivered (ended_state result job) got e))
      (λ r. schedule_retry-IsDelivered answers.retry (ended_state result job) got r e)
  where
    e : IsDelivered (ended_state result job) got
    e = Quiet-IsDelivered job (ended_state result job) got (ended_state-Quiet result job) d

-- An attempt begins with an empty stream, since nothing has been handed to the plugin so far.
pub empty_of_clean :
    (job : RestJob) (got : Bytes)
    → (leb job.attempt 0 || job.waiting_for_retry) ≡ true
    → IsDelivered job got
    → streamed job.outbox ≡ []
empty_of_clean job got a d =
    append-eq-nil (streamed job.outbox) job.stream_buffer (d.exact ∙ none_got)
  where
    none_got : got ≡ []
    none_got = length-eq-zero got (ground arith)

begun-IsDelivered :
    (job after : RestJob) (got : Bytes)
    → (leb job.attempt 0 || job.waiting_for_retry) ≡ true
    → Prepares (begun job) after
    → IsDelivered job got
    → IsDelivered after []
unfolding reset_attempt_state
begun-IsDelivered job after got a p d = record {
  exact =
      ap (λ (j : RestJob). in_stream j) p
      ∙ append-nil (streamed job.outbox)
      ∙ empty_of_clean job got a d;
  counted = omega arith;
  streams = ground arith;
  clean = ground arith;
}

begin_attempt-IsDelivered :
    (answers : BeginAnswers) (job : RestJob) (got : Bytes)
    → Allowed job (begins answers)
    → IsDelivered job got
    → IsDelivered (begin_attempt answers job).0 []
begin_attempt-IsDelivered answers job got a d =
    begin_attempt_cases (λ r. IsDelivered r.0 []) answers job
      (λ after status error p.
        finish-IsDelivered after [] status error (begun-IsDelivered job after got may p d))
      (λ after p c h.
        let e = begun-IsDelivered job after got may p d in
        record { exact = e.exact; counted = e.counted; streams = e.streams; clean = e.clean })
  where
    may : (leb job.attempt 0 || job.waiting_for_retry) ≡ true
    may = ground arith

step-IsDelivered :
    (job : RestJob) (call : Call) (got : Bytes)
    → Allowed job call
    → IsSound job
    → IsDelivered job got
    → IsDelivered (step job call) (taken job call got)
unfolding step cancel
step-IsDelivered job (begins answers) got a s d = begin_attempt-IsDelivered answers job got a d
step-IsDelivered job (header_line status line) got a s d =
    Quiet-IsDelivered job (on_header_line status job line) got (header_line-Quiet status job line) d
step-IsDelivered job (body_chunk answers status chunk) got a s d =
    body_chunk-IsDelivered answers status job chunk got a s d
step-IsDelivered job (progresses now counts) got a s d =
    Quiet-IsDelivered job (progress_callback now job counts).0 got
      (progress_callback-Quiet now job counts) d
step-IsDelivered job (reports text) got a s d = record {
  exact = d.exact;
  counted = d.counted;
  streams = d.streams;
  clean = d.clean;
}
step-IsDelivered job (reads available size) got a s d =
    Quiet-IsDelivered job (read_callback available job size).0 got
      (read_callback-Quiet available job size) d
step-IsDelivered job (seeks seekable offset origin) got a s d =
    Quiet-IsDelivered job (seek_callback seekable job offset origin).0 got
      (seek_callback-Quiet seekable job offset origin) d
step-IsDelivered job (consumes count) got a s d =
    Quiet-IsDelivered job (on_stream_consumed job count).0 got (consumed-Quiet job count) d
step-IsDelivered job (ends answers result) got a s d =
    on_attempt_done-IsDelivered answers result job got d
step-IsDelivered job cancels got a s d =
    let released = release_curl (close_files (record job { cancel_requested = true })) in
    finish-IsDelivered released got RestStatus.cancelled (bytes "cancelled")
      (Quiet-IsDelivered job released got (released-Quiet job) d)

pub Trace-IsDelivered :
    (disk : Disk) (spec : RequestSpec) {job : RestJob} {got : Bytes}
    → spec.stream_data ≡ true
    → Trace (new_job disk spec) job got
    → IsDelivered job got
unfolding new_job streamed
Trace-IsDelivered disk spec h here = record {
  exact = refl;
  counted = omega arith;
  streams = h;
  clean = refl;
}
Trace-IsDelivered disk spec h (next {job = job} {got = got} t call a) =
    step-IsDelivered job call got a (Reach-IsSound disk spec (Trace-Reach t))
      (Trace-IsDelivered disk spec h t)

-- Over the whole life of a job that streams, retries included, the chunks posted for the plugin and
-- what is still in the buffer are together the bytes of the body taken in the last attempt, in their
-- order: what was handed over is never sent again, and nothing is missing.
pub stream_exact :
    (disk : Disk) (spec : RequestSpec) {job : RestJob} {got : Bytes}
    → spec.stream_data ≡ true
    → Trace (new_job disk spec) job got
    → streamed job.outbox ++ job.stream_buffer ≡ got
stream_exact disk spec h t = (Trace-IsDelivered disk spec h t).exact

success_flushes :
    (answers : DoneAnswers) (job : RestJob)
    → is_empty job.spec.output_path ≡ true
    → (handle_http_success answers job).stream_buffer ≡ []
unfolding handle_http_success finish flush_stream
success_flushes answers job h = ground arith

-- When an attempt of such a job ends well, with no file to write to and no cancellation, the chunks
-- posted are the whole body that it took.
pub stream_complete :
    (disk : Disk) (spec : RequestSpec) {job : RestJob} {got : Bytes} (answers : DoneAnswers)
    (result : TransferResult)
    → spec.stream_data ≡ true
    → Trace (new_job disk spec) job got
    → job.attached ≡ true
    → job.cancel_requested ≡ false
    → is_empty job.spec.output_path ≡ true
    → result.code ≡ CurlCode.ok
    → is_success result.response_code ≡ true
    → streamed (on_attempt_done answers result job).outbox ≡ got
unfolding step
stream_complete disk spec {job} {got} answers result h t a c o k r =
    sym (append-nil (streamed (on_attempt_done answers result job).outbox))
    ∙ ap (◌++◌ (streamed (on_attempt_done answers result job).outbox)) (sym flushed)
    ∙ (step-IsDelivered job (ends answers result) got a (Reach-IsSound disk spec (Trace-Reach t))
        (Trace-IsDelivered disk spec h t)).exact
  where
    flushed : (on_attempt_done answers result job).stream_buffer ≡ []
    flushed =
        ap (λ (j : RestJob). j.stream_buffer) (on_attempt_done_success answers result job c k r)
        ∙ success_flushes answers (ended_state result job)
            (ground (arith, ended_state-Quiet result job))
