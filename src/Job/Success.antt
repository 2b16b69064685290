-- ===== src/Job/Success.antt =====
-- The end of an attempt that went well.
use sm_rest.Prelude.{ℕ, ◌≡◌, refl, ap, true, false, not, arith, if_cases}
use sm_rest.Job.State.{RestJob}
use sm_rest.Job.Files.{close_files}
use sm_rest.Job.Receive.{is_success}
use sm_rest.Job.Attempt.{
  TransferResult, DoneAnswers, CurlCode, is_ok, on_attempt_done, capture_attempt_info, release_curl,
  handle_http_success,
}
use sm_rest.Job.Cases.{ended_state}

ended_state_parts :
    (result : TransferResult) (job : RestJob)
    → ((ended_state result job).cancel_requested ≡ job.cancel_requested)
      × ((ended_state result job).http_status ≡ result.response_code)
unfolding release_curl close_files capture_attempt_info
ended_state_parts result job = ground arith

-- An attempt that curl ends well, with a status of success and no cancellation, is judged a success.
pub on_attempt_done_success :
    (answers : DoneAnswers) (result : TransferResult) (job : RestJob)
    → job.cancel_requested ≡ false
    → result.code ≡ CurlCode.ok
    → is_success result.response_code ≡ true
    → on_attempt_done answers result job ≡ handle_http_success answers (ended_state result job)
unfolding on_attempt_done
on_attempt_done_success answers result job c k r =
    let parts = ended_state_parts result job in
    if_cases Succeeds (ended_state result job).cancel_requested _ _ (λ x. cc (parts.0, x, c))
      λ _.
        if_cases Succeeds (not (is_ok result.code)) _ _
          (λ x. cc (ap (λ (code : CurlCode). not (is_ok code)) k, x))
          λ _.
            if_cases Succeeds (is_success (ended_state result job).http_status) _ _ (λ _. refl)
              (λ x. cc (ap (λ (n : ℕ). is_success n) parts.1, x, r))
  where
    Succeeds : RestJob → Type 0
    Succeeds j = j ≡ handle_http_success answers (ended_state result job)
