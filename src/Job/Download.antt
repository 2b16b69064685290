-- ===== src/Job/Download.antt =====
-- A download to a file: what the ".part" file, and in the end the file, holds.
use sm_rest.Prelude.{
  ℕ, ◌≡◌, ◌≢◌, sym, ap, ◌∙◌, true, false, Option, none, some, List, [], ◌∷◌, ◌++◌, arith, Bytes,
  join, if_cases, if◌then◌else◌, is_empty, ◌==◌,
}
use sm_rest.Request.{RequestSpec}
use sm_rest.Job.State.{RestJob, write_file}
use sm_rest.Job.Files.{FileAnswers, open_output_file, close_files}
use sm_rest.Queue.{RestStatus}
use sm_rest.Job.Finish.{completion, finish}
use sm_rest.Job.Receive.{is_success}
use sm_rest.Job.Attempt.{
  DoneAnswers, TransferResult, CurlCode, finalize_download, handle_http_success, on_attempt_done,
  capture_attempt_info, release_curl,
}
use sm_rest.Job.Cases.{ended_state}
use sm_rest.Job.Success.{on_attempt_done_success}
use sm_rest.Job.Writing.{
  write_pieces, Holds, write_file_self, write_pieces-Holds, write_pieces-restarts, settled_ignored,
  settled_honoured, all_open, part_of, open_output_file-resumes, write_pieces-spec,
}

-- What the file holds once the part file is renamed onto it.
finalize_download-Holds :
    (answers : DoneAnswers) (job : RestJob) (content path : Bytes)
    → answers.rename_error ≡ none
    → Holds job content
    → path ≡ job.spec.output_path
    → (finalize_download answers (close_files job)).0.disk path ≡ some content
unfolding finalize_download close_files
finalize_download-Holds answers job content path e h p = ground (
  arith,
  write_file_self (write_file job.disk job.part_path none) job.spec.output_path (some content),
)

-- The same, with the completion, when the attempt ends well.
handle_http_success-Holds :
    (answers : DoneAnswers) (job : RestJob) (content : Bytes)
    → answers.rename_error ≡ none
    → job.disk job.part_path ≡ some content
    → is_empty job.spec.output_path ≡ false
    → job.finished ≡ false
    → let after = handle_http_success answers job in
      (after.disk job.spec.output_path ≡ some content)
      × (after.outbox ≡ job.outbox ++ completion job RestStatus.ok [] ∷ [])
unfolding handle_http_success finalize_download finish completion
handle_http_success-Holds answers job content e h p f = ground (
  arith,
  write_file_self (write_file job.disk job.part_path none) job.spec.output_path (some content),
)

-- What the end of an attempt leaves alone.
ended_state_kept :
    (result : TransferResult) (job : RestJob)
    → ((ended_state result job).disk ≡ job.disk)
      × ((ended_state result job).part_path ≡ job.part_path)
      × ((ended_state result job).spec ≡ job.spec)
      × ((ended_state result job).finished ≡ job.finished)
      × ((ended_state result job).outbox ≡ job.outbox)
unfolding release_curl close_files capture_attempt_info
ended_state_kept result job = ground arith

open_output_file_kept :
    (answers : FileAnswers) (job : RestJob)
    → let job' = (open_output_file answers job).0 in
      (job'.cancel_requested ≡ job.cancel_requested)
      × (job'.finished ≡ job.finished)
      × (job'.outbox ≡ job.outbox)
unfolding open_output_file
open_output_file_kept answers job = ground arith

-- The file that a job leaves when it opens its part file, is sent the pieces and renames it.
abbrev pub downloaded : DoneAnswers → ℕ → RestJob → List Bytes → Option Bytes
downloaded answers status job chunks =
    (finalize_download answers
        (close_files (write_pieces status (open_output_file all_open job).0 chunks))).0.disk
      job.spec.output_path

module _ (answers : DoneAnswers) (status : ℕ) (job : RestJob) (old : Bytes) where
  -- The part file `old` is there and is to be continued, and `rename` succeeds.
  pub record Resumes : Type 0 where
    pub to_file : is_empty job.spec.output_path ≡ false
    pub resume : job.spec.resume ≡ true
    pub part : job.disk (part_of job) ≡ some old
    pub nonempty : old ≢ []
    pub fresh : job.restarted_full_body ≡ false
    pub renames : answers.rename_error ≡ none

  opened : RestJob
  opened = (open_output_file all_open job).0

  opened_pieces :
      (chunk : Bytes) (chunks : List Bytes)
      → Resumes
      → Holds
          (write_pieces status opened (chunk ∷ chunks))
          (if status == 200 then chunk ++ join chunks else old ++ (chunk ++ join chunks))
  unfolding opened
  opened_pieces chunk chunks r =
      let o = open_output_file-resumes job old r.to_file r.resume r.part r.nonempty in
      if_cases (Holds (write_pieces status opened (chunk ∷ chunks))) (status == 200) _ _
        (λ ignored.
          write_pieces-restarts status opened chunk chunks old o.0
            (settled_ignored status opened ignored o.2 (o.3 ∙ r.fresh)))
        (λ honoured.
          (write_pieces-Holds status opened (chunk ∷ chunks) old o.0
            (settled_honoured status opened honoured)).0)

  finalized :
      (chunks : List Bytes) (content : Bytes)
      → Resumes
      → Holds (write_pieces status opened chunks) content
      → downloaded answers status job chunks ≡ some content
  unfolding opened
  finalized chunks content r h =
      let o = open_output_file-resumes job old r.to_file r.resume r.part r.nonempty in
      finalize_download-Holds answers (write_pieces status opened chunks) content
        job.spec.output_path r.renames h
        (ap (λ (s : RequestSpec). s.output_path)
          (sym (write_pieces-spec status opened chunks ∙ o.4)))

  -- A download that continues a part file `old`, by a body in one piece or more, leaves `old` and the
  -- body in the file, or the body alone if the server ignored the range and answered 200.
  pub downloaded_resumed :
      (chunk : Bytes) (chunks : List Bytes)
      → Resumes
      → downloaded answers status job (chunk ∷ chunks)
        ≡ some (if status == 200 then chunk ++ join chunks else old ++ (chunk ++ join chunks))
  downloaded_resumed chunk chunks r = finalized (chunk ∷ chunks) _ r (opened_pieces chunk chunks r)

  -- If no piece of a body comes, and the attempt ends with a status of success, `old` alone is what
  -- the file holds, and the job completes as Ok. That is so for 200 too, by which the server said that
  -- the whole document is empty.
  pub downloaded_empty :
      (result : TransferResult)
      → Resumes
      → job.cancel_requested ≡ false
      → job.finished ≡ false
      → result.code ≡ CurlCode.ok
      → is_success result.response_code ≡ true
      → let opened = (open_output_file all_open job).0 in
        let after = on_attempt_done answers result opened in
        (after.disk job.spec.output_path ≡ some old)
        × (after.outbox
            ≡ job.outbox ++ completion (ended_state result opened) RestStatus.ok [] ∷ [])
  unfolding opened
  downloaded_empty result r c f k s =
      let o = open_output_file-resumes job old r.to_file r.resume r.part r.nonempty in
      let kept = open_output_file_kept all_open job in
      let ended = ended_state_kept result opened in
      let success =
        handle_http_success-Holds answers (ended_state result opened) old r.renames (ground arith)
          (ground arith) (ground arith) in
      rw (on_attempt_done_success answers result opened (kept.0 ∙ c) k s) (
        ap
              (λ (spec : RequestSpec).
                (handle_http_success answers (ended_state result opened)).disk spec.output_path)
              (sym (ended.2 ∙ o.4))
            ∙ success.0,
        success.1
            ∙ ap (λ events. events ++ completion (ended_state result opened) RestStatus.ok [] ∷ [])
                (ended.4 ∙ kept.2),
      )
