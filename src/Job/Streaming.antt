-- ===== src/Job/Streaming.antt =====
-- The steps of a body that is streamed to the plugin.
use sm_rest.Prelude.{
  ◌+◌, ◌≡◌, refl, sym, ap, ◌∙◌, ◌⊎◌, inl, inr, List, [], ◌∷◌, ◌++◌, Bytes, length, append_assoc,
  append-nil, if_cases, is_empty, leb,
}
use sm_rest.Prelude.Int.{to_size_t}
use sm_rest.Queue.{TransferEvent, EventKind, default_event}
use sm_rest.Job.State.{RestJob}
use sm_rest.Job.Receive.{Sink, WriteResult, sink_for, write_stream, flush_stream, stream_high_water}
use sm_rest.Job.History.{Call, begins, body_chunk}

-- What one event hands to the plugin's data callback.
abbrev pub chunk_of : TransferEvent → Bytes
chunk_of event = elim event.kind [ EventKind.chunk ↦ event.body | _ ↦ [] ]

-- All the bytes handed to it.
unfoldable pub streamed : List TransferEvent → Bytes
streamed [] = []
streamed (event ∷ events) = chunk_of event ++ streamed events

pub streamed-append :
    (events : List TransferEvent) (event : TransferEvent)
    → streamed (events ++ event ∷ []) ≡ streamed events ++ chunk_of event
unfolding streamed
streamed-append [] event = append-nil (chunk_of event)
streamed-append (e ∷ events) event =
    ap (◌++◌ (chunk_of e)) (streamed-append events event)
    ∙ sym (append_assoc (chunk_of e) (streamed events) (chunk_of event))

-- The bytes taken for the stream so far in this attempt, handed over or still in the buffer.
abbrev pub in_stream : RestJob → Bytes
in_stream job = streamed job.outbox ++ job.stream_buffer

pub in_stream-quiet :
    (events : List TransferEvent) (event : TransferEvent) (buffer : Bytes)
    → chunk_of event ≡ []
    → streamed (events ++ event ∷ []) ++ buffer ≡ streamed events ++ buffer
in_stream-quiet events event buffer h =
    ap (λ (s : Bytes). s ++ buffer)
      (streamed-append events event ∙ rw h (append-nil (streamed events)))

abbrev chunk_event : RestJob → TransferEvent
chunk_event job = record default_event {
  kind = EventKind.chunk;
  job_id = job.spec.id;
  body = job.stream_buffer;
}

pub in_stream-flush_stream : (job : RestJob) → in_stream (flush_stream job) ≡ in_stream job
unfolding flush_stream
in_stream-flush_stream job =
    if_cases (λ (j : RestJob). in_stream j ≡ in_stream job) (is_empty job.stream_buffer) _ _
      (λ e. refl)
      (λ n.
        append-nil (streamed (job.outbox ++ chunk_event job ∷ []))
        ∙ streamed-append job.outbox (chunk_event job))

abbrev buffered : RestJob → Bytes → RestJob
buffered job chunk = record job {
  stream_buffer = job.stream_buffer ++ chunk;
  body_length = job.body_length + length chunk;
}

abbrev pub Streams : RestJob → Bytes → RestJob × WriteResult → Type 0
Streams job chunk r =
    ((r.1 ≡ WriteResult.took (length chunk)) × (in_stream r.0 ≡ in_stream job ++ chunk))
    ⊎ ((r.1 ≡ WriteResult.pause) × (in_stream r.0 ≡ in_stream job))

-- A piece that is taken goes behind what came before; a piece that is refused, and comes again
-- when the transfer is resumed, leaves it as it was.
pub write_stream_lem : (job : RestJob) (chunk : Bytes) → Streams job chunk (write_stream job chunk)
unfolding write_stream
write_stream_lem job chunk =
    if_cases (Streams job chunk) (leb stream_high_water job.pending_stream_bytes) _ _
      (λ full. inr (refl, refl))
      (λ room. inl (
        refl,
        if_cases (λ (j : RestJob). in_stream j ≡ in_stream job ++ chunk)
            (leb (to_size_t job.spec.config.chunk_size) (length (job.stream_buffer ++ chunk))) _ _
            (λ flush. in_stream-flush_stream (buffered job chunk) ∙ appended) (λ wait. appended),
      ))
  where
    appended : in_stream (buffered job chunk) ≡ in_stream job ++ chunk
    appended = sym (append_assoc (streamed job.outbox) job.stream_buffer chunk)

-- The bytes of the body that the stream takes in the current attempt, over a history of calls.
abbrev pub taken : RestJob → Call → Bytes → Bytes
taken job (begins answers) got = []
taken job (body_chunk answers status chunk) got = elim (sink_for job status) [
  | Sink.stream ↦ elim (write_stream job chunk).1 [
    | WriteResult.took n ↦ got ++ chunk
    | WriteResult.pause ↦ got
  ]
  | _ ↦ got
]
taken job _ got = got
