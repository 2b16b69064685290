-- ===== src/Job/Completion.antt =====
-- A job completes once: the events of kind `complete` over its whole life.
use sm_rest.Prelude.{
  ℕ, ◌+◌, ◌≡◌, refl, ap, ◌∙◌, if_cases, Bool, true, false, List, [], ◌∷◌, ◌++◌, arith, Bytes, bytes,
  if◌then◌else◌,
}
use sm_rest.Prelude.Int.{ℤ}
use sm_rest.Queue.{TransferEvent, EventKind, RestStatus, default_event}
use sm_rest.Request.{RequestSpec}
use sm_rest.Job.State.{RestJob, Disk, new_job}
use sm_rest.Job.Finish.{completion, finish}
use sm_rest.Job.Files.{WriteAnswers, close_files, write_output}
use sm_rest.Job.Receive.{
  on_header_line, on_headers_complete, write_callback, write_memory, write_stream, flush_stream,
  on_stream_consumed,
}
use sm_rest.Job.Upload.{Origin, read_callback, seek_callback}
use sm_rest.Job.Progress.{Counts, progress_callback, post_progress, progress_event}
use sm_rest.Job.Retry.{schedule_retry}
use sm_rest.Job.Attempt.{
  BeginAnswers, TransferResult, DoneAnswers, begin_attempt, reset_attempt_state, on_attempt_done,
  cancel, capture_attempt_info, release_curl,
}
use sm_rest.Job.Cases.{Prepares, begun, begin_attempt_cases, ended_state, on_attempt_done_cases}
use sm_rest.Job.History.{
  Call, begins, header_line, body_chunk, progresses, reports, reads, seeks, consumes, ends, cancels,
  step, run,
}

-- What an event weighs: one that completes a job as much as the job's id, and another nothing.
abbrev pub weight_of : (ℕ → ℕ) → TransferEvent → ℕ
weight_of weight event = elim event.kind [ EventKind.complete ↦ weight event.job_id | _ ↦ 0 ]

-- The completion events in the list, each with the weight of its job's id.
unfoldable pub weigh : (ℕ → ℕ) → List TransferEvent → ℕ
weigh weight [] = 0
weigh weight (event ∷ events) = weight_of weight event + weigh weight events

-- How many completion events the list holds.
abbrev pub completions : List TransferEvent → ℕ
completions events = weigh (λ job_id. 1) events

pub weigh-append :
    (weight : ℕ → ℕ) (events : List TransferEvent) (event : TransferEvent)
    → weigh weight (events ++ event ∷ []) ≡ weigh weight events + weight_of weight event
unfolding weigh
weigh-append weight [] event = omega arith
weigh-append weight (e ∷ events) event = omega (arith, weigh-append weight events event)

abbrev pub once : ℕ → Bool → ℕ
once n true = n
once n false = 0

-- Against a state `start` from before, one completion event of the job more if it has finished
-- since, and else none.
pub record Balanced (weight : ℕ → ℕ) (start job : RestJob) : Type 0 where
  pub same : job.spec.id ≡ start.spec.id
  pub balance :
      weigh weight job.outbox + once (weight start.spec.id) start.finished
      ≡ weigh weight start.outbox + once (weight start.spec.id) job.finished

-- The step leaves the flag and the outbox alone, or posts an event of another kind.
abbrev Silent : (ℕ → ℕ) → RestJob → RestJob → Type 0
Silent weight before after =
    (after.finished ≡ before.finished)
    × (weigh weight after.outbox ≡ weigh weight before.outbox)
    × (after.spec.id ≡ before.spec.id)

abbrev headers_event : RestJob → ℕ → TransferEvent
headers_event job status = record default_event {
  kind = EventKind.headers;
  job_id = job.spec.id;
  http_status = status;
  headers = job.response_headers;
}

abbrev chunk_event : RestJob → Bytes → TransferEvent
chunk_event job chunk = record default_event {
  kind = EventKind.chunk;
  job_id = job.spec.id;
  body = chunk;
}

module _ (weight : ℕ → ℕ) where
  header_line-Silent :
      (status : ℕ) (job : RestJob) (line : Bytes)
      → Silent weight job (on_header_line status job line)
  unfolding on_header_line on_headers_complete
  header_line-Silent status job line =
      ground (arith, weigh-append weight job.outbox (headers_event job status))

  write_stream-Silent :
      (job : RestJob) (chunk : Bytes) → Silent weight job (write_stream job chunk).0
  unfolding write_stream
  write_stream-Silent job chunk =
      ground (arith, weigh-append weight job.outbox (chunk_event job (job.stream_buffer ++ chunk)))

  write_output-Silent :
      (answers : WriteAnswers) (status : ℕ) (job : RestJob) (chunk : Bytes)
      → Silent weight job (write_output answers status job chunk).0
  unfolding write_output
  write_output-Silent answers status job chunk = ground arith

  write_memory-Silent :
      (job : RestJob) (chunk : Bytes) → Silent weight job (write_memory job chunk).0
  unfolding write_memory
  write_memory-Silent job chunk = ground arith

  write_callback-Silent :
      (answers : WriteAnswers) (status : ℕ) (job : RestJob) (chunk : Bytes)
      → Silent weight job (write_callback answers status job chunk).0
  unfolding write_callback
  write_callback-Silent answers status job chunk = ground (
    arith,
    write_stream-Silent job chunk,
    write_output-Silent answers status job chunk,
    write_memory-Silent job chunk,
  )

  progress_callback-Silent :
      (now : ℕ) (job : RestJob) (counts : Counts)
      → Silent weight job (progress_callback now job counts).0
  unfolding progress_callback post_progress progress_event
  progress_callback-Silent now job counts =
      ground (arith, weigh-append weight job.outbox (progress_event job counts))

  read_callback-Silent :
      (available : ℕ) (job : RestJob) (size : ℕ)
      → Silent weight job (read_callback available job size).0
  unfolding read_callback
  read_callback-Silent available job size = ground arith

  seek_callback-Silent :
      (seekable : Bool) (job : RestJob) (offset : ℤ) (origin : Origin)
      → Silent weight job (seek_callback seekable job offset origin).0
  unfolding seek_callback
  seek_callback-Silent seekable job offset origin = ground arith

  consumed-Silent : (job : RestJob) (count : ℕ) → Silent weight job (on_stream_consumed job count).0
  unfolding on_stream_consumed
  consumed-Silent job count = ground arith

  release-Silent : (job : RestJob) → Silent weight job (release_curl (close_files job))
  unfolding release_curl close_files
  release-Silent job = ground arith

  flush_stream-Silent : (job : RestJob) → Silent weight job (flush_stream job)
  unfolding flush_stream
  flush_stream-Silent job =
      ground (arith, weigh-append weight job.outbox (chunk_event job job.stream_buffer))

  module _ (start : RestJob) where
    finish-Balanced :
        (job : RestJob) (status : RestStatus) (error : Bytes)
        → Balanced weight start job
        → Balanced weight start (finish job status error)
    unfolding finish completion
    finish-Balanced job status error h =
        if_cases (Balanced weight start) job.finished _ _ (λ done. h)
          (λ going. record {
            same = h.same;
            balance = omega (
              arith,
              h.balance,
              weigh-append weight job.outbox (completion job status error),
              ap weight h.same,
              ap (once (weight start.spec.id)) going,
            );
          })

    Silent-Balanced :
        (before after : RestJob)
        → Silent weight before after
        → Balanced weight start before
        → Balanced weight start after
    Silent-Balanced before after s h = record {
      same = s.2 ∙ h.same;
      balance = rw (s.0, s.1) h.balance;
    }

    begun-Silent : (job after : RestJob) → Prepares (begun job) after → Silent weight job after
    unfolding reset_attempt_state
    begun-Silent job after p = ground arith

    begin_attempt-Balanced :
        (answers : BeginAnswers) (job : RestJob)
        → Balanced weight start job
        → Balanced weight start (begin_attempt answers job).0
    begin_attempt-Balanced answers job h =
        begin_attempt_cases (λ r. Balanced weight start r.0) answers job
          (λ after status error p.
            finish-Balanced after status error
              (Silent-Balanced job after (begun-Silent job after p) h))
          (λ after p c e.
            let g = Silent-Balanced job after (begun-Silent job after p) h in
            record { same = g.same; balance = g.balance })

    ended_state-Silent :
        (result : TransferResult) (job : RestJob) → Silent weight job (ended_state result job)
    unfolding capture_attempt_info
    ended_state-Silent result job = release-Silent (capture_attempt_info result job)

    on_attempt_done-Balanced :
        (answers : DoneAnswers) (result : TransferResult) (job : RestJob)
        → Balanced weight start job
        → Balanced weight start (on_attempt_done answers result job)
    unfolding schedule_retry
    on_attempt_done-Balanced answers result job h =
        on_attempt_done_cases (Balanced weight start) answers result job
          (λ disk status error.
            finish-Balanced (record job' { disk = disk }) status error
              (record { same = held.same; balance = held.balance }))
          (finish-Balanced (flush_stream job') RestStatus.ok []
            (Silent-Balanced job' (flush_stream job') (flush_stream-Silent job') held))
          (λ r. record { same = held.same; balance = held.balance })
      where
        job' : RestJob
        job' = ended_state result job

        held : Balanced weight start job'
        held = Silent-Balanced job job' (ended_state-Silent result job) h

    step-Balanced :
        (job : RestJob) (call : Call)
        → Balanced weight start job
        → Balanced weight start (step job call)
    unfolding step cancel
    step-Balanced job (begins answers) h = begin_attempt-Balanced answers job h
    step-Balanced job (header_line status line) h =
        Silent-Balanced job (on_header_line status job line) (header_line-Silent status job line) h
    step-Balanced job (body_chunk answers status chunk) h =
        Silent-Balanced job (write_callback answers status job chunk).0
          (write_callback-Silent answers status job chunk) h
    step-Balanced job (progresses now counts) h =
        Silent-Balanced job (progress_callback now job counts).0
          (progress_callback-Silent now job counts) h
    step-Balanced job (reports text) h = record { same = h.same; balance = h.balance }
    step-Balanced job (reads available size) h =
        Silent-Balanced job (read_callback available job size).0
          (read_callback-Silent available job size) h
    step-Balanced job (seeks seekable offset origin) h =
        Silent-Balanced job (seek_callback seekable job offset origin).0
          (seek_callback-Silent seekable job offset origin) h
    step-Balanced job (consumes count) h =
        Silent-Balanced job (on_stream_consumed job count).0 (consumed-Silent job count) h
    step-Balanced job (ends answers result) h = on_attempt_done-Balanced answers result job h
    step-Balanced job cancels h =
        let job' = record job { cancel_requested = true } in
        let released = release_curl (close_files job') in
        finish-Balanced released RestStatus.cancelled (bytes "cancelled")
          (Silent-Balanced job released (release-Silent job') h)

    run-Balanced :
        (job : RestJob) (calls : List Call)
        → Balanced weight start job
        → Balanced weight start (run job calls)
    unfolding run
    run-Balanced job [] h = h
    run-Balanced job (call ∷ calls) h =
        run-Balanced (step job call) calls (step-Balanced job call h)

  -- A call balances: it posts one completion event if it finishes the job, and else none.
  pub step-balance : (job : RestJob) (call : Call) → Balanced weight job (step job call)
  step-balance job call = step-Balanced job job call (record { same = refl; balance = refl })

  pub begin_attempt-balance :
      (answers : BeginAnswers) (job : RestJob) → Balanced weight job (begin_attempt answers job).0
  begin_attempt-balance answers job =
      begin_attempt-Balanced job answers job (record { same = refl; balance = refl })

-- Whatever is called on a job, in whatever order, it posts one completion event if it is finished,
-- and none as long as it is not: no request completes twice, and none silently.
pub completes_once :
    (disk : Disk) (spec : RequestSpec) (calls : List Call)
    → let job = run (new_job disk spec) calls in
      completions job.outbox ≡ (if job.finished then 1 else 0)
unfolding new_job weigh
completes_once disk spec calls =
    let start = new_job disk spec in
    let h = run-Balanced (λ job_id. 1) start start calls (record { same = refl; balance = refl }) in
    ground (arith, h.balance)
