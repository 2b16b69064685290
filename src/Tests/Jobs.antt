-- ===== src/Tests/Jobs.antt =====
-- Jobs at concrete inputs.
use sm_rest.Prelude.{
  ℕ, List, ◌*◌, ◌+◌, ◌≤◌, ◌≡◌, refl, min, true, false, [], ◌∷◌, ◌++◌, none, some, arith, Bytes,
  bytes, length, take, join, if◌then◌else◌, ◌==◌, bytes_eq,
}
use sm_rest.Prelude.Int.{ℤ, pos, negsuc, ◌+ℤ◌, ◌≤ℤ◌}
use sm_rest.Numbers.{to_string, strtol}
use sm_rest.Text.{find_header, equals_ignore_case}
use sm_rest.Request.{default_spec, default_config, BodyKind}
use sm_rest.Job.State.{RestJob, Disk, new_job, write_file}
use sm_rest.Job.Receive.{body_cap, is_success}
use sm_rest.Job.Progress.{Counts}
use sm_rest.Job.Retry.{RetryAnswers, retry_delay, backoff_of}
use sm_rest.Job.Attempt.{BeginAnswers, CurlCode, TransferResult, DoneAnswers, on_attempt_done}
use sm_rest.Job.Files.{open_upload_file, open_output_file}
use sm_rest.Queue.{RestStatus}
use sm_rest.Job.Upload.{Origin, seek_ok, seek_callback, read_callback}
use sm_rest.Job.Uploading.{read_all, upload_whole}
use sm_rest.Job.Bodies.{receive, kept, receive_fits, receive_exceeds, receive_error}
use sm_rest.Job.Delay.{is_usable, is_count, retry_delay_bounds, retry_delay_honoured}
use sm_rest.Job.Finish.{completion}
use sm_rest.Job.Cases.{ended_state}
use sm_rest.Job.Download.{downloaded, downloaded_resumed, downloaded_empty, Resumes}

abbrev pub no_files : Disk
no_files _ = none

abbrev pub begin_answers : BeginAnswers
begin_answers = record {
  platform = record { max_read_size = pos 524288; version = bytes "1.0" };
  easy_init = true;
  files = record { upload_opens = true; output_opens = true };
  io_error = [];
  add_error = none;
}

abbrev pub done_answers : DoneAnswers
done_answers = record {
  retry = record { now = 5000; jitter = pos 10; undefined = negsuc 0 };
  rename_error = none;
}

abbrev pub result_of : CurlCode → ℕ → TransferResult
result_of code status = record {
  code = code;
  response_code = status;
  effective_url = none;
  total_time = 1500;
  strerror = bytes "error";
}

-- A success, and at most four bytes of it are wanted.
abbrev small_job : RestJob
small_job =
    record (new_job no_files
      (record default_spec { config = record default_config { max_body_size = pos 4 } })) {
        http_status = 200;
      }

abbrev failed_job : RestJob
failed_job = record (new_job no_files (record default_spec { stream_data = true })) {
  http_status = 500;
}

receive_fits_example :
    receive small_job (bytes "ab" ∷ bytes "cd" ∷ [])
    ≡ (kept small_job (small_job.response_body ++ bytes "abcd") (small_job.body_length + 4), true)
unfolding body_cap new_job
receive_fits_example = receive_fits small_job (bytes "ab" ∷ bytes "cd" ∷ []) refl (omega arith)

receive_exceeds_example :
    let (job', whole) = receive small_job (bytes "ab" ∷ bytes "cde" ∷ []) in
    (whole ≡ false) × (job'.too_large ≡ true) × (length job'.response_body ≤ body_cap small_job)
unfolding body_cap new_job
receive_exceeds_example =
    receive_exceeds small_job (bytes "ab" ∷ bytes "cde" ∷ []) refl (omega arith) (omega arith)

receive_error_example :
    (body_cap failed_job ≡ 65536)
    × (receive failed_job (bytes "no" ∷ bytes "pe" ∷ []) ≡ (
      kept failed_job (take (body_cap failed_job) (bytes "nope")) (failed_job.body_length + 4),
      true,
    ))
unfolding new_job
receive_error_example = receive_error failed_job (bytes "no" ∷ bytes "pe" ∷ []) refl refl

-- A first attempt whose answer says when to come back.
abbrev asked : Bytes → RestJob
asked value = record (new_job no_files default_spec) {
  attempt = 1;
  response_headers = (bytes "retry-after", value) ∷ [];
}

-- The answers to a retry with that jitter.
abbrev jittered : ℤ → RetryAnswers
jittered jitter = record { now = 5000; jitter = jitter; undefined = negsuc 0 }

retry_delay_bounds_example :
    let answers = jittered (negsuc 99) in
    let job = asked (bytes "soon") in
    (retry_delay answers job ≡ pos (backoff_of 1) +ℤ negsuc 99)
    × (pos 750 ≤ℤ retry_delay answers job)
    × (retry_delay answers job ≤ℤ pos 37500)
unfolding backoff_of is_usable is_count find_header equals_ignore_case strtol
retry_delay_bounds_example =
    retry_delay_bounds (asked (bytes "soon")) (jittered (negsuc 99)) (omega arith, omega arith) refl

retry_delay_honoured_example :
    retry_delay (jittered (pos 5)) (asked (to_string 7)) ≡ pos (min 60000 (7 * 1000))
unfolding find_header equals_ignore_case
retry_delay_honoured_example =
    retry_delay_honoured (asked (to_string 7)) (jittered (pos 5)) 7 refl (omega arith)

abbrev halfway : Counts
halfway = record { dltotal = 10; dlnow = 5; ultotal = 0; ulnow = 0 }

abbrev sent : Counts
sent = record { dltotal = 0; dlnow = 5; ultotal = 3; ulnow = 3 }

-- Three callbacks within 40 ms, the second with nothing moved.
abbrev quick : List (ℕ × Counts)
quick =
    (10, halfway)
    ∷ (20, record { dltotal = 0; dlnow = 0; ultotal = 0; ulnow = 0 })
    ∷ (40, halfway)
    ∷ []

-- A part file from before holds two bytes.
abbrev with_part : Disk
with_part path = if bytes_eq path (bytes "f.part") then some (bytes "ab") else none

abbrev resuming : RestJob
resuming = new_job with_part (record default_spec { output_path = bytes "f"; resume = true })

resumes : Resumes done_answers 206 resuming (bytes "ab")
unfolding new_job
resumes = record {
  to_file = refl;
  resume = refl;
  part = refl;
  nonempty = λ e. cc;
  fresh = refl;
  renames = refl;
}

resumes_200 : Resumes done_answers 200 resuming (bytes "ab")
unfolding new_job
resumes_200 = record {
  to_file = refl;
  resume = refl;
  part = refl;
  nonempty = λ e. cc;
  fresh = refl;
  renames = refl;
}

downloaded_resumed_example :
    downloaded done_answers 206 resuming (bytes "cd" ∷ bytes "e" ∷ [])
    ≡ some (
        if 206 == 200
        then bytes "cd" ++ join (bytes "e" ∷ [])
        else bytes "ab" ++ (bytes "cd" ++ join (bytes "e" ∷ [])))
downloaded_resumed_example =
    downloaded_resumed done_answers 206 resuming (bytes "ab") (bytes "cd") (bytes "e" ∷ []) resumes

downloaded_empty_example :
    let result = result_of CurlCode.ok 200 in
    let opened =
      (open_output_file (record { upload_opens = true; output_opens = true }) resuming).0 in
    let after = on_attempt_done done_answers result opened in
    (after.disk (bytes "f") ≡ some (bytes "ab"))
    × (after.outbox
        ≡ resuming.outbox ++ completion (ended_state result opened) RestStatus.ok [] ∷ [])
unfolding new_job is_success
downloaded_empty_example =
    downloaded_empty done_answers 200 resuming (bytes "ab") (result_of CurlCode.ok 200) resumes_200
      refl refl refl refl

-- A file of three bytes that is sent.
abbrev sending : RestJob
sending =
    new_job (write_file no_files (bytes "up") (some (bytes "abc")))
      (record default_spec { body_kind = BodyKind.file; body_file_path = bytes "up" })

abbrev opened : RestJob
opened = (open_upload_file begin_answers.files sending).0

-- Two bytes are read, then the file is rewound and read in two parts.
upload_whole_example :
    let rewound = seek_callback true (read_all opened ((9, 2) ∷ [])).0 (pos 0) Origin.set in
    (rewound.1 ≡ seek_ok)
    × ((read_all rewound.0 ((2, 9) ∷ (9, 9) ∷ [])).1 ≡ bytes "abc")
    × (opened.upload_size ≡ 3)
unfolding read_all read_callback seek_callback open_upload_file new_job write_file ◌+ℤ◌
upload_whole_example =
    upload_whole begin_answers.files sending (bytes "abc") ((9, 2) ∷ []) ((2, 9) ∷ (9, 9) ∷ []) refl
      refl refl refl
