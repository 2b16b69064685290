-- ===== src/Job/Delivery/Passing.antt =====
-- What the calls on a job that streams, other than its begin and the pieces of the body, do to what
-- waits for the plugin.
use sm_rest.Prelude.{
  ℕ, ◌+◌, ◌≤◌, ◌≡◌, refl, ap, ◌∙◌, Bool, true, [], ◌∷◌, ◌++◌, arith, Bytes, length, length-append,
  List, if_cases, is_empty,
}
use sm_rest.Prelude.Int.{ℤ}
use sm_rest.Queue.{TransferEvent, EventKind, RestStatus, default_event}
use sm_rest.Job.State.{RestJob}
use sm_rest.Job.Finish.{finish, completion}
use sm_rest.Job.Files.{WriteAnswers, write_output, close_files}
use sm_rest.Job.Receive.{on_header_line, on_headers_complete, write_memory, flush_stream}
use sm_rest.Job.Upload.{Origin, read_callback, seek_callback}
use sm_rest.Job.Progress.{Counts, progress_callback, post_progress, progress_event}
use sm_rest.Job.Retry.{schedule_retry}
use sm_rest.Job.Attempt.{
  TransferResult, DoneAnswers, on_attempt_done, capture_attempt_info, release_curl,
}
use sm_rest.Job.Cases.{ended_state, on_attempt_done_cases}
use sm_rest.Job.Streaming.{chunk_of, streamed, streamed-append}
use sm_rest.Job.Delivery.{headers_event}

length-streamed :
    (events : List TransferEvent) (event : TransferEvent)
    → length (streamed (events ++ event ∷ [])) ≡ length (streamed events) + length (chunk_of event)
length-streamed events event =
    ap length (streamed-append events event) ∙ length-append (streamed events) (chunk_of event)

-- Bytes posted for the plugin are counted as pending, and come out of the buffer.
pub record Passes (before after : RestJob) : Type 0 where
  pub spec : after.spec ≡ before.spec
  pub counts :
      length (streamed after.outbox) + before.pending_stream_bytes
      ≤ length (streamed before.outbox) + after.pending_stream_bytes
  pub held :
      after.pending_stream_bytes + length after.stream_buffer
      ≤ before.pending_stream_bytes + length before.stream_buffer
  pub buffer : length after.stream_buffer ≤ length before.stream_buffer

pub Passes-trans : (a b c : RestJob) → Passes a b → Passes b c → Passes a c
Passes-trans a b c p q = record {
  spec = q.spec ∙ p.spec;
  counts = omega (arith, p.counts, q.counts);
  held = omega (arith, p.held, q.held);
  buffer = omega (arith, p.buffer, q.buffer);
}

-- The step posts no bytes, and leaves the counter and the buffer.
abbrev pub Quiet : RestJob → RestJob → Type 0
Quiet before after =
    (after.spec ≡ before.spec)
    × (length (streamed after.outbox) ≡ length (streamed before.outbox))
    × (after.pending_stream_bytes ≡ before.pending_stream_bytes)
    × (after.stream_buffer ≡ before.stream_buffer)

pub Quiet-Passes : (before after : RestJob) → Quiet before after → Passes before after
Quiet-Passes before after q = record {
  spec = q.0;
  counts = ground arith;
  held = ground arith;
  buffer = ground arith;
}

pub header_line-Quiet :
    (status : ℕ) (job : RestJob) (line : Bytes) → Quiet job (on_header_line status job line)
unfolding on_header_line on_headers_complete
header_line-Quiet status job line =
    ground (arith, length-streamed job.outbox (headers_event job status))

pub progress_callback-Quiet :
    (now : ℕ) (job : RestJob) (counts : Counts) → Quiet job (progress_callback now job counts).0
unfolding progress_callback post_progress progress_event
progress_callback-Quiet now job counts =
    ground (arith, length-streamed job.outbox (progress_event job counts))

pub read_callback-Quiet :
    (available : ℕ) (job : RestJob) (size : ℕ) → Quiet job (read_callback available job size).0
unfolding read_callback
read_callback-Quiet available job size = ground arith

pub seek_callback-Quiet :
    (seekable : Bool) (job : RestJob) (offset : ℤ) (origin : Origin)
    → Quiet job (seek_callback seekable job offset origin).0
unfolding seek_callback
seek_callback-Quiet seekable job offset origin = ground arith

pub finish-Quiet :
    (job : RestJob) (status : RestStatus) (error : Bytes) → Quiet job (finish job status error)
unfolding finish completion
finish-Quiet job status error =
    ground (arith, length-streamed job.outbox (completion job status error))

pub write_memory-Quiet : (job : RestJob) (chunk : Bytes) → Quiet job (write_memory job chunk).0
unfolding write_memory
write_memory-Quiet job chunk = ground arith

pub write_output-Quiet :
    (answers : WriteAnswers) (status : ℕ) (job : RestJob) (chunk : Bytes)
    → Quiet job (write_output answers status job chunk).0
unfolding write_output
write_output-Quiet answers status job chunk = ground arith

ended_state-Quiet : (result : TransferResult) (job : RestJob) → Quiet job (ended_state result job)
unfolding release_curl close_files capture_attempt_info
ended_state-Quiet result job = ground arith

pub released-Quiet :
    (job : RestJob)
    → Quiet job (release_curl (close_files (record job { cancel_requested = true })))
unfolding release_curl close_files
released-Quiet job = ground arith

abbrev chunk_event : RestJob → TransferEvent
chunk_event job = record default_event {
  kind = EventKind.chunk;
  job_id = job.spec.id;
  body = job.stream_buffer;
}

pub flush_stream-Passes : (job : RestJob) → Passes job (flush_stream job)
unfolding flush_stream
flush_stream-Passes job =
    if_cases (Passes job) (is_empty job.stream_buffer) _ _
      (λ e. Quiet-Passes job job (refl, refl, refl, refl))
      (λ n. record {
        spec = refl;
        counts = omega (arith, length-streamed job.outbox (chunk_event job));
        held = omega arith;
        buffer = omega arith;
      })

pub finish-Passes :
    (job after : RestJob) (status : RestStatus) (error : Bytes)
    → Passes job after
    → Passes job (finish after status error)
finish-Passes job after status error p =
    Passes-trans job after (finish after status error) p
      (Quiet-Passes after (finish after status error) (finish-Quiet after status error))

pub on_attempt_done-Passes :
    (answers : DoneAnswers) (result : TransferResult) (job : RestJob)
    → Passes job (on_attempt_done answers result job)
unfolding schedule_retry
on_attempt_done-Passes answers result job =
    on_attempt_done_cases (Passes job) answers result job
      (λ disk status error.
        finish-Passes job (record job' { disk = disk }) status error
          (record { spec = e.spec; counts = e.counts; held = e.held; buffer = e.buffer }))
      (finish-Passes job (flush_stream job') RestStatus.ok []
        (Passes-trans job job' (flush_stream job') e (flush_stream-Passes job')))
      (λ r. record { spec = e.spec; counts = e.counts; held = e.held; buffer = e.buffer })
  where
    job' : RestJob
    job' = ended_state result job

    e : Passes job job'
    e = Quiet-Passes job job' (ended_state-Quiet result job)
