-- ===== src/Job/Receive.antt =====
-- What a transfer delivers (src/job.cpp): header lines, and the body to memory, file or stream.
use sm_rest.Prelude.{
  ℕ, suc, ◌+◌, ◌-◌, min, Bool, true, false, not, ◌&&◌, ◌||◌, Option, none, some, [], ◌∷◌, ◌++◌,
  Bytes, bytes, is_empty, length, take, drop, if◌then◌else◌, ltb, leb, ◌==◌, bytes_eq,
}
use sm_rest.Prelude.Int.{to_size_t}
use sm_rest.Text.{trim, find_header, HeaderList}
use sm_rest.Queue.{EventKind, default_event}
use sm_rest.Job.State.{RestJob}
use sm_rest.Job.Finish.{post_event}
use sm_rest.Job.Files.{WriteAnswers, write_output}

abbrev pub max_error_body : ℕ
max_error_body = 65536

abbrev pub stream_high_water : ℕ
stream_high_water = 4194304

abbrev pub stream_low_water : ℕ
stream_low_water = 1048576

unfoldable pub is_success : ℕ → Bool
is_success http_status = leb 200 http_status && ltb http_status 300

unfoldable pub is_redirect : ℕ → Bool
is_redirect http_status =
    http_status == 301
    || http_status == 302
    || http_status == 303
    || http_status == 307
    || http_status == 308

abbrev has_header : HeaderList → Bytes → Bool
has_header headers name = elim (find_header headers name) [ none ↦ false | some value ↦ true ]

-- `status` is what curl reports as the response code.
unfoldable pub on_headers_complete : ℕ → RestJob → RestJob
unfolding is_redirect
on_headers_complete status job =
    if not job.spec.want_headers || job.headers_posted
    then job
    else if ltb status 200
    then job
    else if is_redirect status
        && job.spec.config.follow_redirects
        && has_header job.response_headers (bytes "location")
    then job
    else post_event (record job { headers_posted = true })
        (record default_event {
          kind = EventKind.headers;
          job_id = job.spec.id;
          http_status = status;
          headers = job.response_headers;
        })

-- `find(':')`; `none` is `npos`.
find_colon : Bytes → Option ℕ
find_colon [] = none
find_colon (c ∷ cs) =
    if c == b':' then some 0 else elim (find_colon cs) [ none ↦ none | some k ↦ some (suc k) ]

-- A line with a colon is an entry, and one with none is passed over.
add_header : RestJob → Bytes → RestJob
add_header job trimmed = elim (find_colon trimmed) [
  | none ↦ job
  | some colon ↦ record job {
    response_headers =
        job.response_headers ++ (trim (take colon trimmed), trim (drop (suc colon) trimmed)) ∷ [];
  }
]

unfoldable pub on_header_line : ℕ → RestJob → Bytes → RestJob
unfolding add_header find_colon
on_header_line status job line =
    if bytes_eq (take 5 line) (bytes "HTTP/")
    then record job { response_headers = []; headers_posted = false }
    else if is_empty (trim line)
    then on_headers_complete status job
    else add_header job (trim line)

-- All of the line is taken.
abbrev pub header_callback : ℕ → RestJob → Bytes → RestJob × ℕ
header_callback status job line = (on_header_line status job line, length line)

pub data Sink : Type 0 where
  memory file stream : Sink

unfoldable pub sink_for : RestJob → ℕ → Sink
unfolding is_success
sink_for job status =
    if not (is_success status)
    then Sink.memory
    else if not (is_empty job.spec.output_path)
    then Sink.file
    else if job.spec.stream_data
    then Sink.stream
    else Sink.memory

-- The body is the result of the request, and not the text of an error.
abbrev pub is_primary : RestJob → Bool
is_primary job = is_empty job.spec.output_path && not job.spec.stream_data

unfoldable pub body_cap : RestJob → ℕ
body_cap job = if is_primary job then to_size_t job.spec.config.max_body_size else max_error_body

unfoldable pub write_memory : RestJob → Bytes → RestJob × ℕ
unfolding body_cap
write_memory job chunk =
    let room = body_cap job - length job.response_body in
    if ltb room (length chunk) && is_primary job then (record job { too_large = true }, 0) else (
      record job {
        response_body = job.response_body ++ take (min (length chunk) room) chunk;
        body_length = job.body_length + length chunk;
      },
      length chunk,
    )

unfoldable pub flush_stream : RestJob → RestJob
flush_stream job =
    if is_empty job.stream_buffer
    then job
    else post_event
        (record job {
          pending_stream_bytes = job.pending_stream_bytes + length job.stream_buffer;
          stream_buffer = [];
        })
        (record default_event {
          kind = EventKind.chunk;
          job_id = job.spec.id;
          body = job.stream_buffer;
        })

-- What a write callback tells curl: a number of bytes, or `CURL_WRITEFUNC_PAUSE`.
pub data WriteResult : Type 0 where
  took : ℕ → WriteResult
  pause : WriteResult

unfoldable pub write_stream : RestJob → Bytes → RestJob × WriteResult
unfolding flush_stream
write_stream job chunk =
    if leb stream_high_water job.pending_stream_bytes
    then (record job { paused = true }, WriteResult.pause)
    else let buffered = record job {
      stream_buffer = job.stream_buffer ++ chunk;
      body_length = job.body_length + length chunk;
    } in
      (
        if leb (to_size_t job.spec.config.chunk_size) (length buffered.stream_buffer)
            then flush_stream buffered
            else buffered,
        WriteResult.took (length chunk),
      )

unfoldable pub write_callback : WriteAnswers → ℕ → RestJob → Bytes → RestJob × WriteResult
write_callback answers status job chunk = elim (sink_for job status) [
  | Sink.file ↦ let (job', n) = write_output answers status job chunk in (job', WriteResult.took n)
  | Sink.stream ↦ write_stream job chunk
  | Sink.memory ↦ let (job', n) = write_memory job chunk in (job', WriteResult.took n)
]

-- The game thread has handed `count` bytes to the plugin: of chunks that were posted, each once, so
-- that no more is consumed than is pending. The second part says whether `curl_easy_pause` resumes
-- the transfer.
unfoldable pub on_stream_consumed : RestJob → ℕ → RestJob × Bool
on_stream_consumed job count =
    let consumed = record job { pending_stream_bytes = job.pending_stream_bytes - count } in
    if not job.paused || leb stream_low_water consumed.pending_stream_bytes || not job.attached
    then (consumed, false)
    else (record consumed { paused = false }, true)
