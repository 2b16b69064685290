-- ===== src/Job/Delivery.antt =====
-- A streamed body over the whole life of a job: the plugin gets one attempt's bytes, once.
pub mod Whole
pub mod Passing
pub mod Backed
pub mod Bounded
use sm_rest.Prelude.{
  ℕ, ◌+◌, ◌≤◌, ◌≡◌, refl, sym, ap, ◌∙◌, ◌⊎◌, inl, inr, Bool, true, false, not, ◌&&◌, ◌||◌, List, [],
  ◌∷◌, ◌++◌, append-nil, arith, Bytes, bytes, length, length-append, is_empty, if◌then◌else◌,
  if_cases, ltb, leb,
}
use native.Mathlib.Nat.{le_trans}
use sm_rest.Prelude.Int.{ℤ}
use sm_rest.Queue.{TransferEvent, EventKind, RestStatus, default_event}
use sm_rest.Request.{RequestSpec}
use sm_rest.Job.State.{RestJob, Disk, new_job}
use sm_rest.Job.Finish.{finish, completion}
use sm_rest.Job.Files.{WriteAnswers, write_output, close_files}
use sm_rest.Job.Receive.{
  Sink, WriteResult, sink_for, is_success, on_header_line, on_headers_complete, write_callback,
  write_memory, write_stream, flush_stream, on_stream_consumed,
}
use sm_rest.Job.Upload.{Origin, read_callback, seek_callback}
use sm_rest.Job.Progress.{Counts, progress_callback, post_progress, progress_event}
use sm_rest.Job.Retry.{RetryAnswers, schedule_retry, can_retry}
use sm_rest.Job.Attempt.{
  BeginAnswers, TransferResult, DoneAnswers, CurlCode, is_ok, begin_attempt, reset_attempt_state,
  on_attempt_done, cancel, capture_attempt_info, release_curl, handle_result, handle_http_success,
}
use sm_rest.Job.Cases.{Prepares, begun, begin_attempt_cases, ended_state, on_attempt_done_cases}
use sm_rest.Job.History.{
  Call, begins, header_line, body_chunk, progresses, reports, reads, seeks, consumes, ends, cancels,
  step,
}
use sm_rest.Job.Phases.{IsSound, Allowed, Reach, Reach-IsSound}
use sm_rest.Job.Streaming.{
  streamed, in_stream, in_stream-flush_stream, in_stream-quiet, write_stream_lem, taken,
}

length-eq-zero : (xs : Bytes) → length xs ≡ 0 → xs ≡ []
length-eq-zero [] h = refl
length-eq-zero (x ∷ xs) h = absurd (omega arith)

append-eq-nil : (xs ys : Bytes) → xs ++ ys ≡ [] → xs ≡ []
append-eq-nil [] ys h = refl
append-eq-nil (x ∷ xs) ys h = cc

-- A state that allowed calls lead to, with the bytes of the body taken in its last attempt.
pub data Trace (start : RestJob) : RestJob → Bytes → Type 0 where
  here : Trace start start []
  next :
      {job : RestJob} {got : Bytes}
      → Trace start job got
      → (call : Call) → Allowed job call
      → Trace start (step job call) (taken job call got)

Trace-Reach : {start job : RestJob} {got : Bytes} → Trace start job got → Reach start job
Trace-Reach here = Reach.here
Trace-Reach (next t call a) = Reach.next (Trace-Reach t) call a

-- A job that streams: what was taken is in the stream, it counts as received, and nothing was taken
-- when an attempt may begin.
pub record IsDelivered (job : RestJob) (got : Bytes) : Type 0 where
  exact : in_stream job ≡ got
  counted : length got ≤ job.body_length
  streams : job.spec.stream_data ≡ true
  clean : ((leb job.attempt 0 || job.waiting_for_retry) && ltb 0 job.body_length) ≡ false

-- The step leaves all that alone.
abbrev Quiet : RestJob → RestJob → Type 0
Quiet before after =
    (in_stream after ≡ in_stream before)
    × (after.body_length ≡ before.body_length)
    × (after.spec ≡ before.spec)
    × (after.attempt ≡ before.attempt)
    × (after.waiting_for_retry ≡ before.waiting_for_retry)

Quiet-IsDelivered :
    (before after : RestJob) (got : Bytes)
    → Quiet before after
    → IsDelivered before got
    → IsDelivered after got
Quiet-IsDelivered before after got q d = record {
  exact = q.0 ∙ d.exact;
  counted = ground arith;
  streams = ground arith;
  clean = ground arith;
}

abbrev pub headers_event : RestJob → ℕ → TransferEvent
headers_event job status = record default_event {
  kind = EventKind.headers;
  job_id = job.spec.id;
  http_status = status;
  headers = job.response_headers;
}

header_line-Quiet :
    (status : ℕ) (job : RestJob) (line : Bytes) → Quiet job (on_header_line status job line)
unfolding on_header_line on_headers_complete
header_line-Quiet status job line =
    ground (arith, in_stream-quiet job.outbox (headers_event job status) job.stream_buffer refl)

progress_callback-Quiet :
    (now : ℕ) (job : RestJob) (counts : Counts) → Quiet job (progress_callback now job counts).0
unfolding progress_callback post_progress progress_event
progress_callback-Quiet now job counts =
    ground (arith, in_stream-quiet job.outbox (progress_event job counts) job.stream_buffer refl)

read_callback-Quiet :
    (available : ℕ) (job : RestJob) (size : ℕ) → Quiet job (read_callback available job size).0
unfolding read_callback
read_callback-Quiet available job size = ground arith

seek_callback-Quiet :
    (seekable : Bool) (job : RestJob) (offset : ℤ) (origin : Origin)
    → Quiet job (seek_callback seekable job offset origin).0
unfolding seek_callback
seek_callback-Quiet seekable job offset origin = ground arith

consumed-Quiet : (job : RestJob) (count : ℕ) → Quiet job (on_stream_consumed job count).0
unfolding on_stream_consumed
consumed-Quiet job count = ground arith

finish-IsDelivered :
    (job : RestJob) (got : Bytes) (status : RestStatus) (error : Bytes)
    → IsDelivered job got
    → IsDelivered (finish job status error) got
unfolding finish completion
finish-IsDelivered job got status error d =
    if_cases (λ j. IsDelivered j got) job.finished _ _ (λ f. d)
      (λ k. record {
        exact =
            in_stream-quiet job.outbox (completion job status error) job.stream_buffer refl
            ∙ d.exact;
        counted = d.counted;
        streams = d.streams;
        clean = ground arith;
      })

flush_stream-IsDelivered :
    (job : RestJob) (got : Bytes) → IsDelivered job got → IsDelivered (flush_stream job) got
unfolding flush_stream
flush_stream-IsDelivered job got d =
    Quiet-IsDelivered job (flush_stream job) got
      (in_stream-flush_stream job, ground arith, ground arith, ground arith, ground arith) d

-- A piece of a body counts, and changes neither the request nor where the job stands.
abbrev Counting : RestJob → RestJob → Type 0
Counting before after =
    (before.body_length ≤ after.body_length)
    × (after.spec ≡ before.spec)
    × (after.attempt ≡ before.attempt)
    × (after.waiting_for_retry ≡ before.waiting_for_retry)

write_memory-Counting :
    (job : RestJob) (chunk : Bytes)
    → Counting job (write_memory job chunk).0
      × (in_stream (write_memory job chunk).0 ≡ in_stream job)
unfolding write_memory
write_memory-Counting job chunk = ground arith

write_output-Counting :
    (answers : WriteAnswers) (status : ℕ) (job : RestJob) (chunk : Bytes)
    → Counting job (write_output answers status job chunk).0
      × (in_stream (write_output answers status job chunk).0 ≡ in_stream job)
unfolding write_output
write_output-Counting answers status job chunk = ground arith

write_stream-Counting :
    (job : RestJob) (chunk : Bytes)
    → Counting job (write_stream job chunk).0
      × (((write_stream job chunk).1 ≡ WriteResult.pause)
          ⊎ (job.body_length + length chunk ≡ (write_stream job chunk).0.body_length))
unfolding write_stream
write_stream-Counting job chunk = ground arith

-- Where curl has the job, no attempt may begin.
Counting-IsDelivered :
    (job after : RestJob) (got : Bytes)
    → job.attached ≡ true
    → IsSound job
    → job.spec.stream_data ≡ true
    → Counting job after
    → in_stream after ≡ got
    → length got ≤ after.body_length
    → IsDelivered after got
Counting-IsDelivered job after got a s t c e l = record {
  exact = e;
  counted = l;
  streams = ground arith;
  clean = ground arith;
}

write_stream-IsDelivered :
    (job : RestJob) (chunk got : Bytes)
    → job.attached ≡ true
    → IsSound job
    → IsDelivered job got
    → IsDelivered (write_stream job chunk).0 (elim (write_stream job chunk).1 [
      | WriteResult.took n ↦ got ++ chunk
      | WriteResult.pause ↦ got
    ])
write_stream-IsDelivered job chunk got a s d = elim (write_stream_lem job chunk) [
  | inl (took, e) ↦ rw took (
      Counting-IsDelivered job (write_stream job chunk).0 (got ++ chunk) a s d.streams counting.0
        (e ∙ ap (λ (b : Bytes). b ++ chunk) d.exact)
        (ground (arith, length-append got chunk, write_stream-Counting job chunk)))
  | inr (paused, e) ↦ rw paused (
      Counting-IsDelivered job (write_stream job chunk).0 got a s d.streams counting.0 (e ∙ d.exact)
        (le_trans d.counted counting.0.0))
]
  where
    counting :
        Counting job (write_stream job chunk).0
        × (((write_stream job chunk).1 ≡ WriteResult.pause)
            ⊎ (job.body_length + length chunk ≡ (write_stream job chunk).0.body_length))
    counting = write_stream-Counting job chunk

-- A piece of the body, for memory, file or stream.
body_chunk-IsDelivered :
    (answers : WriteAnswers) (status : ℕ) (job : RestJob) (chunk got : Bytes)
    → job.attached ≡ true
    → IsSound job
    → IsDelivered job got
    → IsDelivered
        (write_callback answers status job chunk).0
        (taken job (body_chunk answers status chunk) got)
unfolding write_callback
body_chunk-IsDelivered answers status job chunk got a s d =
    elim (sink_for job status)
      as (λ sink.
        IsDelivered
          (elim sink as (λ x. RestJob × WriteResult) [
            | Sink.memory ↦
                ((write_memory job chunk).0, WriteResult.took (write_memory job chunk).1)
            | Sink.file ↦ (
              (write_output answers status job chunk).0,
              WriteResult.took (write_output answers status job chunk).1,
            )
            | Sink.stream ↦ write_stream job chunk
          ]).0
          (elim sink as (λ x. Bytes) [
            | Sink.memory ↦ got
            | Sink.file ↦ got
            | Sink.stream ↦ elim (write_stream job chunk).1 [
              | WriteResult.took n ↦ got ++ chunk
              | WriteResult.pause ↦ got
            ]
          ])) [
            | Sink.memory ↦
                let m = write_memory-Counting job chunk in
                Counting-IsDelivered job (write_memory job chunk).0 got a s d.streams m.0
                  (m.1 ∙ d.exact) (le_trans d.counted m.0.0)
            | Sink.file ↦
                let m = write_output-Counting answers status job chunk in
                Counting-IsDelivered job (write_output answers status job chunk).0 got a s d.streams
                  m.0 (m.1 ∙ d.exact) (le_trans d.counted m.0.0)
            | Sink.stream ↦ write_stream-IsDelivered job chunk got a s d
          ]
