-- ===== src/Job/Delivery/Backed.antt =====
-- What is posted, pending and in the buffer, through the begin of an attempt, the pieces of the body
-- and the plugin's consumption.
use sm_rest.Prelude.{
  ℕ, ◌+◌, ◌-◌, ◌≤◌, ◌<◌, ◌≡◌, refl, ap, ◌∙◌, Bool, false, not, ◌||◌, [], ◌++◌, arith, Bytes, length,
  length-append, if_cases, leb,
}
use sm_rest.Prelude.Int.{to_size_t}
use sm_rest.Request.{RequestSpec}
use sm_rest.Job.State.{RestJob}
use sm_rest.Job.Finish.{finish}
use sm_rest.Job.Files.{WriteAnswers, write_output}
use sm_rest.Job.Receive.{
  Sink, WriteResult, sink_for, write_callback, write_memory, write_stream, flush_stream,
  on_stream_consumed, stream_high_water, stream_low_water,
}
use sm_rest.Job.Attempt.{BeginAnswers, begin_attempt, reset_attempt_state}
use sm_rest.Job.Cases.{Prepares, begun, begin_attempt_cases}
use sm_rest.Job.Streaming.{streamed}
use sm_rest.Job.Delivery.Passing.{
  Passes, Quiet, Quiet-Passes, write_memory-Quiet, write_output-Quiet, flush_stream-Passes,
  finish-Passes,
}

-- The most that waits: less than the high water mark, a chunk and a piece.
abbrev pub stream_limit : ℕ → RequestSpec → ℕ
stream_limit piece spec = stream_high_water + to_size_t spec.config.chunk_size + piece

flush_stream-length : (job : RestJob) → length (flush_stream job).stream_buffer ≡ 0
unfolding flush_stream
flush_stream-length job = ground arith

module _ (piece : ℕ) (spec : RequestSpec) where
  -- What was posted is consumed or pending, and what is pending or in the buffer is limited.
  pub record IsBacked (consumed : ℕ) (job : RestJob) : Type 0 where
    pub same : job.spec ≡ spec
    pub backed : length (streamed job.outbox) ≤ consumed + job.pending_stream_bytes
    pub limited : job.pending_stream_bytes + length job.stream_buffer < stream_limit piece spec
    pub buffer : length job.stream_buffer ≤ to_size_t spec.config.chunk_size

  pub Passes-IsBacked :
      (consumed : ℕ) (before after : RestJob)
      → Passes before after
      → IsBacked consumed before
      → IsBacked consumed after
  Passes-IsBacked consumed before after p b = record {
    same = p.spec ∙ b.same;
    backed = omega (arith, p.counts, b.backed);
    limited = omega (arith, p.held, b.limited);
    buffer = omega (arith, p.buffer, b.buffer);
  }

  pub Quiet-IsBacked :
      (consumed : ℕ) (before after : RestJob)
      → Quiet before after
      → IsBacked consumed before
      → IsBacked consumed after
  Quiet-IsBacked consumed before after q =
      Passes-IsBacked consumed before after (Quiet-Passes before after q)

  write_stream-IsBacked :
      (consumed : ℕ) (job : RestJob) (chunk : Bytes)
      → length chunk ≤ piece
      → IsBacked consumed job
      → IsBacked consumed (write_stream job chunk).0
  unfolding write_stream
  write_stream-IsBacked consumed job chunk f b =
      if_cases (λ (r : RestJob × WriteResult). IsBacked consumed r.0)
        (leb stream_high_water job.pending_stream_bytes) _ _
        (λ full. record {
          same = b.same;
          backed = b.backed;
          limited = b.limited;
          buffer = b.buffer;
        })
        (λ room.
          if_cases (IsBacked consumed)
            (leb (to_size_t job.spec.config.chunk_size) (length (job.stream_buffer ++ chunk))) _ _
            (λ flush.
              let p = flush_stream-Passes buffered in
              record {
                same = p.spec ∙ b.same;
                backed = omega (arith, p.counts, b.backed);
                limited = omega (arith, p.held, waits room);
                buffer = omega (arith, flush_stream-length buffered);
              })
            (λ wait. record {
              same = b.same;
              backed = b.backed;
              limited = waits room;
              buffer = ground arith;
            }))
    where
      buffered : RestJob
      buffered = record job {
        stream_buffer = job.stream_buffer ++ chunk;
        body_length = job.body_length + length chunk;
      }

      waits :
          leb stream_high_water job.pending_stream_bytes ≡ false
          → job.pending_stream_bytes + length (job.stream_buffer ++ chunk) < stream_limit piece spec
      waits room = ground (arith, length-append job.stream_buffer chunk)

  pub body_chunk-IsBacked :
      (consumed : ℕ) (answers : WriteAnswers) (status : ℕ) (job : RestJob) (chunk : Bytes)
      → length chunk ≤ piece
      → IsBacked consumed job
      → IsBacked consumed (write_callback answers status job chunk).0
  unfolding write_callback
  body_chunk-IsBacked consumed answers status job chunk f b =
      elim (sink_for job status)
        as (λ sink.
          IsBacked consumed
            (elim sink as (λ x. RestJob × WriteResult) [
              | Sink.memory ↦
                  ((write_memory job chunk).0, WriteResult.took (write_memory job chunk).1)
              | Sink.file ↦ (
                (write_output answers status job chunk).0,
                WriteResult.took (write_output answers status job chunk).1,
              )
              | Sink.stream ↦ write_stream job chunk
            ]).0) [
              | Sink.memory ↦
                  Quiet-IsBacked consumed job (write_memory job chunk).0
                    (write_memory-Quiet job chunk) b
              | Sink.file ↦
                  Quiet-IsBacked consumed job (write_output answers status job chunk).0
                    (write_output-Quiet answers status job chunk) b
              | Sink.stream ↦ write_stream-IsBacked consumed job chunk f b
            ]

  begun-IsBacked :
      (consumed : ℕ) (job after : RestJob)
      → streamed job.outbox ≡ []
      → Prepares (begun job) after
      → IsBacked consumed job
      → IsBacked consumed after
  unfolding reset_attempt_state
  begun-IsBacked consumed job after e p b = record {
    same = ap (λ (j : RestJob). j.spec) p ∙ b.same;
    backed = omega (arith, ap (λ (j : RestJob). length (streamed j.outbox)) p, ap length e);
    limited =
        omega (arith, ap (λ (j : RestJob). j.pending_stream_bytes + length j.stream_buffer) p);
    buffer = omega (arith, ap (λ (j : RestJob). length j.stream_buffer) p);
  }

  pub begin_attempt-IsBacked :
      (consumed : ℕ) (answers : BeginAnswers) (job : RestJob)
      → streamed job.outbox ≡ []
      → IsBacked consumed job
      → IsBacked consumed (begin_attempt answers job).0
  begin_attempt-IsBacked consumed answers job e b =
      begin_attempt_cases (λ r. IsBacked consumed r.0) answers job
        (λ after status error p.
          Passes-IsBacked consumed after (finish after status error)
            (finish-Passes after after status error
              (Quiet-Passes after after (refl, refl, refl, refl)))
            (begun-IsBacked consumed job after e p b))
        (λ after p c h.
          let d = begun-IsBacked consumed job after e p b in
          record { same = d.same; backed = d.backed; limited = d.limited; buffer = d.buffer })

  pub consumed-IsBacked :
      (consumed : ℕ) (job : RestJob) (count : ℕ)
      → IsBacked consumed job
      → IsBacked (consumed + count) (on_stream_consumed job count).0
  unfolding on_stream_consumed
  consumed-IsBacked consumed job count b =
      let left = job.pending_stream_bytes - count in
      let backed : length (streamed job.outbox) ≤ consumed + count + left = omega arith in
      let limited : left + length job.stream_buffer < stream_limit piece spec = omega arith in
      if_cases (λ (r : RestJob × Bool). IsBacked (consumed + count) r.0)
        (not job.paused || leb stream_low_water left || not job.attached) _ _
        (λ stays. record { same = b.same; backed = backed; limited = limited; buffer = b.buffer })
        (λ goes. record { same = b.same; backed = backed; limited = limited; buffer = b.buffer })
