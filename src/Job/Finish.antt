-- ===== src/Job/Finish.antt =====
-- `Finish` (src/job.cpp): the one completion event of a job.
use sm_rest.Prelude.{true, false, none, some, [], ◌∷◌, ◌++◌, Bytes, bytes, if◌then◌else◌}
use sm_rest.Prelude.Int.{ℤ, negsuc}
use sm_rest.Text.{HeaderList, find_header}
use sm_rest.Numbers.{atoll}
use sm_rest.Queue.{TransferEvent, EventKind, RestStatus, default_event}
use sm_rest.Job.State.{RestJob}

-- `m_queue->Post`.
abbrev pub post_event : RestJob → TransferEvent → RestJob
post_event job event = record job { outbox = job.outbox ++ event ∷ [] }

-- The number in the Content-Length header, and -1 where there is no such header.
unfoldable pub content_length_of : HeaderList → ℤ
content_length_of headers = elim (find_header headers (bytes "content-length")) [
  | none ↦ negsuc 0
  | some value ↦ atoll value
]

unfoldable pub completion : RestJob → RestStatus → Bytes → TransferEvent
completion job status error = record default_event {
  kind = EventKind.complete;
  job_id = job.spec.id;
  status = status;
  http_status = job.http_status;
  error = error;
  url = job.effective_url;
  elapsed_ms = job.elapsed_ms;
  body_length = job.body_length;
  headers = job.response_headers;
  body = job.response_body;
  content_length = content_length_of job.response_headers;
}

-- The body is moved into the event, so it is empty afterwards.
unfoldable pub finish : RestJob → RestStatus → Bytes → RestJob
finish job status error =
    if job.finished
    then job
    else post_event (record job { finished = true; waiting_for_retry = false; response_body = [] })
        (completion job status error)
