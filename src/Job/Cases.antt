-- ===== src/Job/Cases.antt =====
-- Case rules for the begin and the end of an attempt: what a job can have become.
use sm_rest.Prelude.{
  ◌≡◌, refl, ◌∙◌, Bool, true, false, none, some, List, [], Bytes, arith, Option-cases, inl, inr,
  if_cases, not, leb, ltb, is_empty, bytes, ◌++◌, suc, ◌&&◌,
}
use sm_rest.Numbers.{to_string}
use sm_rest.Queue.{RestStatus}
use sm_rest.Job.State.{RestJob, EasyOption, Disk, set_options, write_file}
use sm_rest.Job.Options.{
  Platform, build_headers, apply_common_options, apply_auth, apply_method, apply_body,
}
use sm_rest.Job.Files.{FileAnswers, open_files, open_upload_file, open_output_file, close_files}
use sm_rest.Job.Finish.{finish}
use sm_rest.Job.Receive.{is_success, flush_stream}
use sm_rest.Job.Retry.{schedule_retry, can_retry, should_retry_status}
use sm_rest.Job.Attempt.{
  BeginAnswers, TransferResult, is_ok, DoneAnswers, CurlCode, reset_attempt_state, configure,
  add_handle, begin_attempt, capture_attempt_info, release_curl, finalize_download,
  handle_transport_failure, handle_http_failure, handle_http_success, on_attempt_done,
}

-- `after` differs from `before` in its curl handle and its files at most.
abbrev pub Prepares : RestJob → RestJob → Type 0
Prepares before after = after ≡ record before {
  easy = after.easy;
  header_list = after.header_list;
  mime = after.mime;
  upload_file = after.upload_file;
  upload_size = after.upload_size;
  part_path = after.part_path;
  output_file = after.output_file;
  disk = after.disk;
  resume_offset = after.resume_offset;
}

Prepares-trans : (a b c : RestJob) → Prepares a b → Prepares b c → Prepares a c
Prepares-trans a b c p q = ground arith

set_options-Prepares :
    (job : RestJob) (options : List EasyOption) → Prepares job (set_options job options)
unfolding set_options
set_options-Prepares job options = ground arith

-- The job has a curl handle.
abbrev pub has_handle : RestJob → Bool
has_handle job = elim job.easy [ none ↦ false | some options ↦ true ]

set_options-has_handle :
    (job : RestJob) (options : List EasyOption)
    → has_handle (set_options job options) ≡ has_handle job
unfolding set_options
set_options-has_handle job options = ground arith

configure-has_handle :
    (platform : Platform) (job : RestJob) → has_handle (configure platform job) ≡ has_handle job
unfolding configure build_headers apply_common_options apply_auth apply_method apply_body
    set_options
configure-has_handle platform job = ground arith

open_files-has_handle :
    (answers : FileAnswers) (job : RestJob) → has_handle (open_files answers job).0 ≡ has_handle job
unfolding open_files open_upload_file open_output_file
open_files-has_handle answers job = ground arith

open_files-Prepares :
    (answers : FileAnswers) (job : RestJob) → Prepares job (open_files answers job).0
unfolding open_files open_upload_file open_output_file
open_files-Prepares answers job = ground arith

build_headers-Prepares : (job : RestJob) → Prepares job (build_headers job)
unfolding build_headers
build_headers-Prepares job = refl

apply_body-Prepares : (job : RestJob) → Prepares job (apply_body job)
unfolding apply_body set_options
apply_body-Prepares job = ground arith

configure-Prepares : (platform : Platform) (job : RestJob) → Prepares job (configure platform job)
unfolding configure apply_common_options apply_auth apply_method
configure-Prepares platform job = Prepares-trans job headed _ (build_headers-Prepares job) (
    Prepares-trans headed common _ (set_options-Prepares headed _) (
      Prepares-trans common authed _ (set_options-Prepares common _) (
        Prepares-trans authed methodic _ (set_options-Prepares authed _) (
          Prepares-trans methodic bodied _ (apply_body-Prepares methodic)
            (set_options-Prepares bodied _)))))
  where
    headed : RestJob
    headed = build_headers job

    common : RestJob
    common = apply_common_options platform headed

    authed : RestJob
    authed = apply_auth common

    methodic : RestJob
    methodic = apply_method authed

    bodied : RestJob
    bodied = apply_body methodic

-- The state in which an attempt begins.
abbrev pub begun : RestJob → RestJob
begun job = reset_attempt_state (record job { attempt = suc job.attempt })

add_handle_cases {ℓ} :
    (P : RestJob × Bool → Type ℓ) (answers : BeginAnswers) (job : RestJob)
    → ((error : Bytes) → P (finish job RestStatus.network_error error, false))
    → P (record job { attached = true }, true)
    → P (add_handle answers job)
unfolding add_handle
add_handle_cases P answers job refused started = elim (Option-cases answers.add_error) [
  | inl e ↦ rw (e, add_handle) started
  | inr (error, e) ↦ rw (e, add_handle) (refused error)
]

-- An attempt that begins either ends the job at once or leaves it with curl.
pub begin_attempt_cases {ℓ} :
    (P : RestJob × Bool → Type ℓ) (answers : BeginAnswers) (job : RestJob)
    → ((after : RestJob) (status : RestStatus) (error : Bytes)
        → Prepares (begun job) after
        → P (finish after status error, false))
    → ((after : RestJob)
        → Prepares (begun job) after
        → job.cancel_requested ≡ false
        → has_handle after ≡ true
        → P (record after { attached = true }, true))
    → P (begin_attempt answers job)
unfolding begin_attempt reset_attempt_state
begin_attempt_cases P answers job refused started =
    if_cases P job.cancel_requested _ _
      (λ c. refused (begun job) RestStatus.cancelled (bytes "cancelled") refl)
      λ k.
        if_cases P (not answers.easy_init) _ _
          (λ n.
            refused (record (begun job) { easy = none }) RestStatus.network_error
              (bytes "curl_easy_init failed") refl)
          λ y.
            if_cases P (not opened.1) _ _
              (λ n. refused opened.0 RestStatus.io_error answers.io_error prepared)
              λ z.
                let whole =
                  Prepares-trans (begun job) opened.0 _ prepared
                    (configure-Prepares answers.platform opened.0) in
                add_handle_cases P answers (configure answers.platform opened.0)
                  (λ error. refused (configure answers.platform opened.0) _ _ whole)
                  (started (configure answers.platform opened.0) whole k (
                    configure-has_handle answers.platform opened.0
                    ∙ open_files-has_handle answers.files _))
  where
    opened : RestJob × Bool
    opened = open_files answers.files (record (begun job) { easy = some [] })

    prepared : Prepares (begun job) opened.0
    prepared =
        ground (arith, open_files-Prepares answers.files (record (begun job) { easy = some [] }))

module _ {ℓ} (P : RestJob → Type ℓ) (answers : DoneAnswers) (job : RestJob) where
  transport_cases :
      (code : CurlCode) (error : Bytes)
      → ((status : RestStatus) (text : Bytes) → P (finish job status text))
      → (can_retry job ≡ true → P (schedule_retry answers.retry job))
      → P (handle_transport_failure answers job code error)
  unfolding handle_transport_failure
  transport_cases CurlCode.ok error ended retried =
      if_cases P (can_retry job) _ _ retried (λ n. ended RestStatus.network_error error)
  transport_cases CurlCode.write_error error ended retried =
      if_cases P job.too_large _ _ (λ n. ended RestStatus.too_large _)
        (λ n. ended RestStatus.io_error error)
  transport_cases CurlCode.operation_timedout error ended retried =
      if_cases P (can_retry job) _ _ retried (λ n. ended RestStatus.timeout error)
  transport_cases (CurlCode.other n) error ended retried =
      if_cases P (can_retry job) _ _ retried (λ n. ended RestStatus.network_error error)
  transport_cases _ error ended retried = ended _ _

  success_cases :
      ((disk : Disk) (status : RestStatus) (error : Bytes)
        → P (finish (record job { disk = disk }) status error))
      → P (finish (flush_stream job) RestStatus.ok [])
      → P (handle_http_success answers job)
  unfolding handle_http_success finalize_download
  success_cases ended flushed =
      if_cases P (is_empty job.spec.output_path) _ _ (λ e. flushed)
        (λ n. elim (Option-cases answers.rename_error) [
          | inl e ↦ elim (Option-cases (job.disk job.part_path)) [
            | inl f ↦ rw (e, finalize_download, f) (ended _ _ _)
            | inr (content, f) ↦ rw (e, finalize_download, f) (ended _ _ _)
          ]
          | inr (error, e) ↦ rw (e, finalize_download) (ended _ _ _)
        ])

  failure_cases :
      ((disk : Disk) (status : RestStatus) (error : Bytes)
        → P (finish (record job { disk = disk }) status error))
      → (can_retry job ≡ true → P (schedule_retry answers.retry job))
      → P (handle_http_failure answers job)
  unfolding handle_http_failure
  failure_cases ended retried =
      if_cases P (should_retry_status job.http_status && can_retry job) _ _
        (λ r. retried (ground arith))
        λ n.
          if_cases
            (λ j. P (finish j RestStatus.http_error (bytes "HTTP " ++ to_string job.http_status)))
            (not (is_empty job.part_path) && (leb 400 job.http_status && ltb job.http_status 500)) _
            _ (λ c. ended (write_file job.disk job.part_path none) RestStatus.http_error _)
            (λ k. ended job.disk RestStatus.http_error _)

-- The state in which the end of an attempt is judged.
abbrev pub ended_state : TransferResult → RestJob → RestJob
ended_state result job = release_curl (close_files (capture_attempt_info result job))

-- An attempt that ends either finishes the job or, if it may be retried, schedules that.
pub on_attempt_done_cases {ℓ} :
    (P : RestJob → Type ℓ) (answers : DoneAnswers) (result : TransferResult) (job : RestJob)
    → ((disk : Disk) (status : RestStatus) (error : Bytes)
        → P (finish (record (ended_state result job) { disk = disk }) status error))
    → P (finish (flush_stream (ended_state result job)) RestStatus.ok [])
    → (can_retry (ended_state result job) ≡ true
        → P (schedule_retry answers.retry (ended_state result job)))
    → P (on_attempt_done answers result job)
unfolding on_attempt_done
on_attempt_done_cases P answers result job ended flushed retried =
    if_cases P job'.cancel_requested _ _
      (λ c. ended job'.disk RestStatus.cancelled (bytes "cancelled"))
      λ k.
        if_cases P (not (is_ok result.code)) _ _
          (λ f. transport_cases P answers job' result.code _ (ended job'.disk) retried)
          λ o.
            if_cases P (is_success job'.http_status) _ _
              (λ s. success_cases P answers job' ended flushed)
              (λ f. failure_cases P answers job' ended retried)
  where
    job' : RestJob
    job' = ended_state result job
