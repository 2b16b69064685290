-- ===== src/Job/Delivery/Bounded.antt =====
-- What waits for the plugin over the life of a job that streams.
use sm_rest.Prelude.{ℕ, ◌+◌, ◌≤◌, ◌<◌, ◌≡◌, refl, true, ◌&&◌, [], arith, Bytes, bytes, length}
use sm_rest.Queue.{RestStatus}
use sm_rest.Request.{RequestSpec}
use sm_rest.Job.State.{RestJob, Disk, new_job}
use sm_rest.Job.Finish.{finish}
use sm_rest.Job.Files.{close_files}
use sm_rest.Job.Receive.{on_header_line, on_stream_consumed}
use sm_rest.Job.Upload.{read_callback, seek_callback}
use sm_rest.Job.Progress.{progress_callback}
use sm_rest.Job.Attempt.{on_attempt_done, cancel, release_curl}
use sm_rest.Job.History.{
  Call, begins, header_line, body_chunk, progresses, reports, reads, seeks, consumes, ends, cancels,
  step,
}
use sm_rest.Job.Phases.{Allowed}
use sm_rest.Job.Streaming.{streamed, taken}
use sm_rest.Job.Delivery.{Trace, IsDelivered}
use sm_rest.Job.Delivery.Whole.{Trace-IsDelivered, empty_of_clean}
use sm_rest.Job.Delivery.Passing.{
  Quiet-Passes, header_line-Quiet, progress_callback-Quiet, read_callback-Quiet,
  seek_callback-Quiet, released-Quiet, finish-Passes, on_attempt_done-Passes,
}
use sm_rest.Job.Delivery.Backed.{
  stream_limit, IsBacked, Passes-IsBacked, Quiet-IsBacked, body_chunk-IsBacked,
  begin_attempt-IsBacked, consumed-IsBacked,
}

-- No piece of the body is longer than that.
abbrev pub Fits : ℕ → Call → Type 0
Fits piece (body_chunk answers status chunk) = length chunk ≤ piece
Fits piece _ = Unit {0}

-- The bytes that the plugin has consumed.
abbrev pub consumed_by : Call → ℕ → ℕ
consumed_by (consumes count) consumed = consumed + count
consumed_by _ consumed = consumed

-- A state that allowed calls lead to, with the bytes taken in its last attempt, and the number of
-- those that the plugin has consumed over all.
pub data Life (piece : ℕ) (start : RestJob) : RestJob → Bytes → ℕ → Type 0 where
  here : Life piece start start [] 0
  next :
      {job : RestJob} {got : Bytes} {consumed : ℕ}
      → Life piece start job got consumed
      → (call : Call) → Allowed job call
      → Fits piece call
      → Life piece start (step job call) (taken job call got) (consumed_by call consumed)

Life-Trace :
    {piece : ℕ} {start job : RestJob} {got : Bytes} {consumed : ℕ}
    → Life piece start job got consumed
    → Trace start job got
Life-Trace here = Trace.here
Life-Trace (next l call a f) = Trace.next (Life-Trace l) call a

module _ (piece : ℕ) (spec : RequestSpec) where
  step-IsBacked :
      (consumed : ℕ) (job : RestJob) (call : Call) (got : Bytes)
      → Allowed job call
      → Fits piece call
      → IsDelivered job got
      → IsBacked piece spec consumed job
      → IsBacked piece spec (consumed_by call consumed) (step job call)
  unfolding step cancel
  step-IsBacked consumed job (begins answers) got a f d b =
      begin_attempt-IsBacked piece spec consumed answers job
        (empty_of_clean job got (ground arith) d) b
  step-IsBacked consumed job (header_line status line) got a f d b =
      Quiet-IsBacked piece spec consumed job (on_header_line status job line)
        (header_line-Quiet status job line) b
  step-IsBacked consumed job (body_chunk answers status chunk) got a f d b =
      body_chunk-IsBacked piece spec consumed answers status job chunk f b
  step-IsBacked consumed job (progresses now counts) got a f d b =
      Quiet-IsBacked piece spec consumed job (progress_callback now job counts).0
        (progress_callback-Quiet now job counts) b
  step-IsBacked consumed job (reports text) got a f d b = record {
    same = b.same;
    backed = b.backed;
    limited = b.limited;
    buffer = b.buffer;
  }
  step-IsBacked consumed job (reads available size) got a f d b =
      Quiet-IsBacked piece spec consumed job (read_callback available job size).0
        (read_callback-Quiet available job size) b
  step-IsBacked consumed job (seeks seekable offset origin) got a f d b =
      Quiet-IsBacked piece spec consumed job (seek_callback seekable job offset origin).0
        (seek_callback-Quiet seekable job offset origin) b
  step-IsBacked consumed job (consumes count) got a f d b =
      consumed-IsBacked piece spec consumed job count b
  step-IsBacked consumed job (ends answers result) got a f d b =
      Passes-IsBacked piece spec consumed job (on_attempt_done answers result job)
        (on_attempt_done-Passes answers result job) b
  step-IsBacked consumed job cancels got a f d b =
      let released = release_curl (close_files (record job { cancel_requested = true })) in
      Passes-IsBacked piece spec consumed job
        (finish released RestStatus.cancelled (bytes "cancelled"))
        (finish-Passes job released RestStatus.cancelled (bytes "cancelled")
          (Quiet-Passes job released (released-Quiet job)))
        b

  Life-IsBacked :
      (disk : Disk) {job : RestJob} {got : Bytes} {consumed : ℕ}
      → spec.stream_data ≡ true
      → Life piece (new_job disk spec) job got consumed
      → IsBacked piece spec consumed job
  unfolding new_job streamed
  Life-IsBacked disk h here = record {
    same = refl;
    backed = omega arith;
    limited = omega arith;
    buffer = omega arith;
  }
  Life-IsBacked disk h (next {job = job} {got = got} {consumed = consumed} l call a f) =
      step-IsBacked consumed job call got a f (Trace-IsDelivered disk spec h (Life-Trace l))
        (Life-IsBacked disk h l)

-- Over the whole life of a job that streams, retries included, with pieces of a bounded size: the
-- bytes posted for the plugin, less those that it has consumed, are with those in the buffer fewer
-- than the high water mark, a chunk and a piece. And when the plugin consumes all that is counted as
-- pending, a transfer that is paused goes on.
pub stream_bounded :
    (piece : ℕ) (disk : Disk) (spec : RequestSpec) {job : RestJob} {got : Bytes} {consumed : ℕ}
    → spec.stream_data ≡ true
    → Life piece (new_job disk spec) job got consumed
    → (length (streamed job.outbox) + length job.stream_buffer < consumed + stream_limit piece spec)
      × ((on_stream_consumed job job.pending_stream_bytes).1 ≡ (job.paused && job.attached))
unfolding on_stream_consumed
stream_bounded piece disk spec h l =
    let b = Life-IsBacked piece spec disk h l in (omega (arith, b.backed, b.limited), ground arith)
