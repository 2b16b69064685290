-- ===== src/Job/Attempt.antt =====
-- An attempt from its begin to its end (src/job.cpp), and cancelling.
use sm_rest.Prelude.{
  ℕ, suc, ◌/◌, Bool, true, false, not, ◌&&◌, Option, none, some, [], ◌∷◌, ◌++◌, Bytes, bytes,
  is_empty, if◌then◌else◌, ltb, leb,
}
use sm_rest.Numbers.{to_string, to_string_ℤ}
use sm_rest.Queue.{RestStatus}
use sm_rest.Job.State.{RestJob, EasyOption, set_options, write_file}
use sm_rest.Job.Options.{
  Platform, build_headers, apply_common_options, apply_auth, apply_method, apply_body,
}
use sm_rest.Job.Files.{FileAnswers, open_files, close_files}
use sm_rest.Job.Finish.{finish}
use sm_rest.Job.Receive.{is_success, flush_stream}
use sm_rest.Job.Retry.{RetryAnswers, schedule_retry, can_retry, should_retry_status}

-- What libcurl and the operating system answer while an attempt begins: whether there is a handle,
-- which files open, the text of `errno`, and why `curl_multi_add_handle` refuses the handle, if it
-- does.
pub record BeginAnswers : Type 0 where
  pub platform : Platform
  pub easy_init : Bool
  pub files : FileAnswers
  pub io_error : Bytes
  pub add_error : Option Bytes

unfoldable pub reset_attempt_state : RestJob → RestJob
reset_attempt_state job = record job {
  response_body = [];
  stream_buffer = [];
  response_headers = [];
  headers_posted = false;
  body_length = 0;
  pending_stream_bytes = 0;
  paused = false;
  too_large = false;
  http_status = 0;
  error_buffer = [];
  restarted_full_body = false;
  last_progress_post = 0;
  waiting_for_retry = false;
}

-- The headers and all the options, the header list last.
unfoldable pub configure : Platform → RestJob → RestJob
configure platform job =
    let ready =
      apply_body (apply_method (apply_auth (apply_common_options platform (build_headers job)))) in
    set_options ready (EasyOption.http_header ready.header_list ∷ [])

unfoldable pub add_handle : BeginAnswers → RestJob → RestJob × Bool
add_handle answers job = elim answers.add_error [
  | none ↦ (record job { attached = true }, true)
  | some error ↦ (finish job RestStatus.network_error error, false)
]

begin_opened : BeginAnswers → RestJob × Bool → RestJob × Bool
begin_opened answers (job, opened) =
    if not opened
    then (finish job RestStatus.io_error answers.io_error, false)
    else add_handle answers (configure answers.platform job)

begin_reset : BeginAnswers → RestJob → RestJob × Bool
begin_reset answers job =
    if job.cancel_requested
    then (finish job RestStatus.cancelled (bytes "cancelled"), false)
    else if not answers.easy_init
    then (
      finish (record job { easy = none }) RestStatus.network_error (bytes "curl_easy_init failed"),
      false,
    )
    else begin_opened answers (open_files answers.files (record job { easy = some [] }))

unfoldable pub begin_attempt : BeginAnswers → RestJob → RestJob × Bool
unfolding begin_reset begin_opened
begin_attempt answers job =
    begin_reset answers (reset_attempt_state (record job { attempt = suc job.attempt }))

pub data CurlCode : Type 0 where
  ok aborted_by_callback write_error read_error ssl_cacert_badfile : CurlCode
  peer_failed_verification too_many_redirects url_malformat unsupported_protocol : CurlCode
  operation_timedout : CurlCode
  other : ℕ → CurlCode

-- What curl reports of a transfer that is done; the time is in microseconds.
pub record TransferResult : Type 0 where
  pub code : CurlCode
  pub response_code : ℕ
  pub effective_url : Option Bytes
  pub total_time : ℕ
  pub strerror : Bytes

-- What the rest of the system answers: the retry clock, and why `rename` fails, if it does.
pub record DoneAnswers : Type 0 where
  pub retry : RetryAnswers
  pub rename_error : Option Bytes

unfoldable pub capture_attempt_info : TransferResult → RestJob → RestJob
capture_attempt_info result job = record job {
  http_status = result.response_code;
  effective_url = elim result.effective_url [ none ↦ [] | some url ↦ url ];
  elapsed_ms = result.total_time / 1000;
}

-- The easy handle and its mime parts are freed; with no handle nothing is done.
unfoldable pub release_curl : RestJob → RestJob
release_curl job = elim job.easy [
  | none ↦ job
  | some options ↦ record job { attached = false; easy = none; mime = none }
]

-- `rename(part, output)`: the second part is the error. It fails too if there is no such file.
unfoldable pub finalize_download : DoneAnswers → RestJob → RestJob × Option Bytes
finalize_download answers job = elim answers.rename_error [
  | some error ↦ (job, some (bytes "rename failed: " ++ error))
  | none ↦ elim (job.disk job.part_path) [
    | none ↦ (job, some (bytes "rename failed: No such file or directory"))
    | some content ↦ (
      record job {
        disk =
            write_file (write_file job.disk job.part_path none) job.spec.output_path (some content);
      },
      none,
    )
  ]
]

retry_or_finish : DoneAnswers → RestJob → RestStatus → Bytes → RestJob
retry_or_finish answers job status error =
    if can_retry job then schedule_retry answers.retry job else finish job status error

too_large_error : RestJob → Bytes
too_large_error job =
    bytes "response body exceeds " ++ to_string_ℤ job.spec.config.max_body_size ++ bytes " bytes"

unfoldable pub handle_transport_failure : DoneAnswers → RestJob → CurlCode → Bytes → RestJob
unfolding retry_or_finish too_large_error
handle_transport_failure answers job CurlCode.ok error =
    retry_or_finish answers job RestStatus.network_error error
handle_transport_failure answers job CurlCode.aborted_by_callback error =
    finish job RestStatus.cancelled (bytes "cancelled")
handle_transport_failure answers job CurlCode.write_error error =
    if job.too_large
    then finish job RestStatus.too_large (too_large_error job)
    else finish job RestStatus.io_error error
handle_transport_failure answers job CurlCode.read_error error =
    finish job RestStatus.io_error error
handle_transport_failure answers job CurlCode.ssl_cacert_badfile error =
    finish job RestStatus.network_error error
handle_transport_failure answers job CurlCode.peer_failed_verification error =
    finish job RestStatus.network_error error
handle_transport_failure answers job CurlCode.too_many_redirects error =
    finish job RestStatus.network_error error
handle_transport_failure answers job CurlCode.url_malformat error =
    finish job RestStatus.network_error error
handle_transport_failure answers job CurlCode.unsupported_protocol error =
    finish job RestStatus.network_error error
handle_transport_failure answers job CurlCode.operation_timedout error =
    retry_or_finish answers job RestStatus.timeout error
handle_transport_failure answers job (CurlCode.other n) error =
    retry_or_finish answers job RestStatus.network_error error

-- `unlink` of the part file on a client error.
unlink_part : RestJob → RestJob
unlink_part job =
    if not (is_empty job.part_path) && (leb 400 job.http_status && ltb job.http_status 500)
    then record job { disk = write_file job.disk job.part_path none }
    else job

unfoldable pub handle_http_failure : DoneAnswers → RestJob → RestJob
unfolding unlink_part
handle_http_failure answers job =
    if should_retry_status job.http_status && can_retry job
    then schedule_retry answers.retry job
    else finish (unlink_part job) RestStatus.http_error (bytes "HTTP " ++ to_string job.http_status)

finish_download : RestJob × Option Bytes → RestJob
finish_download (job, none) = finish job RestStatus.ok []
finish_download (job, some error) = finish job RestStatus.io_error error

unfoldable pub handle_http_success : DoneAnswers → RestJob → RestJob
unfolding finish_download
handle_http_success answers job =
    if is_empty job.spec.output_path
    then finish (flush_stream job) RestStatus.ok []
    else finish_download (finalize_download answers job)

abbrev pub is_ok : CurlCode → Bool
is_ok CurlCode.ok = true
is_ok _ = false

-- The text in the buffer that curl has filled, or else the one that it has for the code.
attempt_error : TransferResult → RestJob → Bytes
attempt_error result job =
    if not (is_empty job.error_buffer) then job.error_buffer else result.strerror

unfoldable pub handle_result : DoneAnswers → TransferResult → RestJob → Bytes → RestJob
handle_result answers result job error =
    if job.cancel_requested
    then finish job RestStatus.cancelled (bytes "cancelled")
    else if not (is_ok result.code)
    then handle_transport_failure answers job result.code error
    else if is_success job.http_status
    then handle_http_success answers job
    else handle_http_failure answers job

unfoldable pub on_attempt_done : DoneAnswers → TransferResult → RestJob → RestJob
unfolding handle_result attempt_error
on_attempt_done answers result job =
    let captured = capture_attempt_info result job in
    handle_result answers result (release_curl (close_files captured))
      (attempt_error result captured)

unfoldable pub cancel : RestJob → RestJob
cancel job =
    finish (release_curl (close_files (record job { cancel_requested = true })))
      RestStatus.cancelled (bytes "cancelled")
